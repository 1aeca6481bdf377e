-- ===== src/ClaimRoute.antt =====
-- The routes by which a gift is claimed: GET src/app/api/v1/gifts/[id]/challenge, which issues a
-- nonce, and POST src/app/api/v1/gifts/[id]/claim, behind `withCsrf` and `withErrorHandler`. Redis is
-- a parameter, over times in seconds; so is the check of a signature, on the hexadecimal texts.
pub mod Keys
pub mod InFlight
pub mod Strangers
pub mod Rows
pub mod Refused
pub mod LockedOut
use lumigift_lumigift.Common.{
  ℕ, ◌/◌, String, Bool, true, false, not, List, [], ◌∷◌, Option, none, some, Result, ok, err,
  if◌then◌else◌, truthy,
}
use Prim.Native.String.{◌++◌ as concat}
use lumigift_lumigift.Redis.{Redis}
use lumigift_lumigift.Gift.Defs.{Gift, World, Error}
use lumigift_lumigift.Gift.Service.{get_gift_by_id}
use lumigift_lumigift.Claim.{ChainAnswer, QueueAnswer, claim_gift}
use lumigift_lumigift.Invitations.{
  Invitation, is_accepted, claim_invitation, get_invitation_by_phone_and_gift,
}
use lumigift_lumigift.Guards.Csrf.{Text, post, Request, Verdict, with_csrf, guarded}

abbrev pub challenge_ttl : ℕ
challenge_ttl = 300

abbrev pub challenge_key : String → String → String
challenge_key gift_id nonce = concat "claim:challenge:" (concat gift_id (concat ":" nonce))

-- The body of a claim that passes the schema.
pub record ClaimGiftInput : Type 0 where
  pub gift_id : String
  pub recipient_stellar_key : String
  pub nonce : String
  pub signature : String

-- The user of the session, with the phone where there is one.
pub record SessionUser : Type 0 where
  pub phone : Option String

-- A request, with its time in milliseconds and what the services answer to it: whether the queries of
-- the invitations go through, whether the account is valid, the state of the escrow contract, and what
-- becomes of the job.
pub record ClaimRequest : Type 0 where
  pub now : ℕ
  pub header_token : Option Text
  pub cookie_token : Option Text
  pub session : Option SessionUser
  pub body : Option ClaimGiftInput
  pub lookup_up : Bool
  pub update_up : Bool
  pub account_valid : Bool
  pub chain : ChainAnswer
  pub queue : QueueAnswer

abbrev pub seconds : ℕ → ℕ
seconds now = now / 1000

-- What a job that is enqueued is answered with, and what an error is.
abbrev claimed_answer : World × Result Error String → World × ℕ
claimed_answer (w, ok job_id) = (w, 200)
claimed_answer (w, err e) = (w, 500)

module _ (r : Redis) (verify : String → String → String → Bool) (hmac : Option (Text → Text)) where
  open r use {State, get, set_ex, del}

  -- The keys of Redis, the rows of the invitations, and the gifts.
  pub record Site : Type 0 where
    pub keys : State
    pub invitations : List Invitation
    pub world : World

  -- GET, with the id that `context?.params?.id` gives, where there is one that is not empty, and the
  -- nonce that is drawn.
  unfoldable pub challenge : ℕ → Option String → String → Site → Site × ℕ
  challenge now none nonce s = (s, 400)
  challenge now (some id) nonce s = (
    record s { keys = set_ex (seconds now) (challenge_key id nonce) "1" challenge_ttl s.keys },
    200,
  )

  -- `verifyClaimSignature` after its GET, and as a whole where nothing runs in between (InFlight has
  -- the two commands apart); the signature check is false where it throws.
  abbrev pub check_signature : ℕ → ClaimGiftInput → Option String → Site → Site × Bool
  check_signature t input none s = (s, false)
  check_signature t input (some found) s = (
    record s { keys = del t (challenge_key input.gift_id input.nonce) s.keys },
    verify input.recipient_stellar_key input.nonce input.signature,
  )

  unfoldable pub verify_claim_signature : ℕ → ClaimGiftInput → Site → Site × Bool
  verify_claim_signature t input s =
      check_signature t input (truthy (get t (challenge_key input.gift_id input.nonce) s.keys)) s

  -- `claimGift`, with its answer.
  unfoldable pub pass_on : ClaimRequest → String → Gift → Site → Site × ℕ
  pass_on q key gift s =
      let (world', status) =
        claimed_answer (claim_gift q.account_valid q.chain q.queue key gift s.world) in
      (record s { world = world' }, status)

  abbrev pub use_invitation : ClaimRequest → String → Gift → Invitation → Site → Site × ℕ
  use_invitation q key gift i s =
      if not (is_accepted i.status)
      then (s, 403)
      else if not q.update_up
      then (s, 500)
      else pass_on q key gift (record s { invitations = (claim_invitation i.id s.invitations).0 })

  abbrev pub with_invitation : ClaimRequest → String → Gift → Option Invitation → Site → Site × ℕ
  with_invitation q key gift none s = pass_on q key gift s
  with_invitation q key gift (some i) s = use_invitation q key gift i s

  abbrev pub with_phone : ClaimRequest → String → String → Gift → Option String → Site → Site × ℕ
  with_phone q gift_id key gift none s = pass_on q key gift s
  with_phone q gift_id key gift (some phone) s =
      if not q.lookup_up
      then (s, 500)
      else with_invitation q key gift
          (get_invitation_by_phone_and_gift q.now phone gift_id s.invitations) s

  abbrev pub with_gift : ClaimRequest → SessionUser → ClaimGiftInput → Option Gift → Site → Site × ℕ
  with_gift q user input none s = (s, 404)
  with_gift q user input (some gift) s =
      with_phone q input.gift_id input.recipient_stellar_key gift (truthy user.phone) s

  abbrev pub if_signed : ClaimRequest → SessionUser → ClaimGiftInput → Site × Bool → Site × ℕ
  if_signed q user input (s, false) = (s, 401)
  if_signed q user input (s, true) = with_gift q user input (get_gift_by_id input.gift_id s.world) s

  unfoldable pub claim_handler :
      ClaimRequest → Option SessionUser → Option ClaimGiftInput → Site → Site × ℕ
  claim_handler q none body s = (s, 401)
  claim_handler q (some user) none s = (s, 400)
  claim_handler q (some user) (some input) s =
      if_signed q user input (verify_claim_signature (seconds q.now) input s)

  -- POST
  unfoldable pub claim_route : ClaimRequest → Site → Site × ℕ
  claim_route q s =
      guarded
        (with_csrf hmac q.now
          (record { method = post; header_token = q.header_token; cookie_token = q.cookie_token }))
        (claim_handler q q.session q.body) s
