-- ===== src/EventIndexer.antt =====
-- The escrow event indexer (src/server/services/event-indexer.service.ts) and the fetching of
-- contract events (src/lib/contracts/escrow-events.ts). The RPC node is a parameter.
pub mod Replay
use lumigift_lumigift.Common.{
  ℕ, suc, ◌+◌, String, Bool, true, false, ◌≡◌, ◌&&◌, not, List, [], ◌∷◌, ◌++◌, Option, none, some,
  ◌==◌, ◌===◌, if◌then◌else◌, length,
}
use lumigift_lumigift.Common.Dict.{values}
use lumigift_lumigift.Gift.Status.{GiftStatus, locked, claimed, expired, cancelled, is_status}
use lumigift_lumigift.Gift.Defs.{Gift, World, Env}
use lumigift_lumigift.Gift.Service.{get_gift_by_id, update_gift_status_idempotent}

-- `EscrowEvent`; the amounts, addresses and times, which the indexer never reads, are left out.
pub data EscrowEventType : Type 0 where
  gift_created gift_claimed gift_cancelled gift_expired : EscrowEventType

pub record EscrowEvent : Type 0 where
  pub kind : EscrowEventType
  pub contract_id : String
  pub tx_hash : String
  pub gift_id : String

-- An event as the node returns it: the native values of its topics, the number of items of its
-- data vector (none where it is no vector), and whether the SDK can convert these items.
pub record RawEvent : Type 0 where
  pub id : String
  pub topic : List String
  pub items : Option ℕ
  pub convertible : Bool
  pub contract_id : String
  pub tx_hash : String

pub record Response : Type 0 where
  pub events : List RawEvent
  pub cursor : Option String

-- The decoders: `none` where they throw.
abbrev decode : EscrowEventType → ℕ → RawEvent → String → Option EscrowEvent
decode kind size raw gift_id = elim raw.items [
  | none ↦ none
  | some n ↦
      if (n == size) && raw.convertible
      then some (record {
        kind = kind;
        contract_id = raw.contract_id;
        tx_hash = raw.tx_hash;
        gift_id = gift_id;
      })
      else none
]

abbrev topic_gift_id : List String → String
topic_gift_id (name ∷ gift_id ∷ rest) = gift_id
topic_gift_id _ = ""

-- The `switch` over the event's name, with the legacy names.
dispatch_name : String → RawEvent → String → Option EscrowEvent
dispatch_name name raw gift_id =
    if name === "gift_created"
    then decode gift_created 5 raw gift_id
    else if name === "gift_claimed"
    then decode gift_claimed 3 raw gift_id
    else if name === "gift_cancelled"
    then decode gift_cancelled 3 raw gift_id
    else if name === "gift_expired"
    then decode gift_expired 3 raw gift_id
    else if name === "initialized"
    then decode gift_created 4 raw gift_id
    else if name === "claimed"
    then decode gift_claimed 2 raw gift_id
    else if name === "cancelled"
    then decode gift_cancelled 2 raw gift_id
    else none

unfoldable pub parse_event_response : RawEvent → Option EscrowEvent
unfolding dispatch_name
parse_event_response raw = elim raw.topic [
  | [] ↦ none
  | name ∷ rest ↦ dispatch_name name raw (topic_gift_id raw.topic)
]

-- The loop over the response, with the events so far and the latest cursor.
collect : List RawEvent → List EscrowEvent → String → List EscrowEvent × String
collect [] events latest = (events, latest)
collect (raw ∷ raws) events latest = elim (parse_event_response raw) [
  | none ↦ collect raws events latest
  | some e ↦ collect raws (events ++ e ∷ []) raw.id
]

pub cursor_genesis : String
cursor_genesis = "0000000000000000-0000000000"

prefer_cursor : Option String → String → String → String
prefer_cursor none start latest = latest
prefer_cursor (some c) start latest = if not (c === "") && not (c === start) then c else latest

-- `fetchEscrowEvents`, over the node's answer to `getEvents`.
unfoldable pub fetch_escrow_events : (String → Response) → String → List EscrowEvent × String
unfolding collect prefer_cursor
fetch_escrow_events node start =
    let response = node start in
    let (events, latest) = collect response.events [] start in
    (events, prefer_cursor response.cursor start latest)

-- `getGiftByContractId`
find_contract : String → List Gift → Option Gift
find_contract c [] = none
find_contract c (g ∷ gs) =
    let rest = find_contract c gs in
    elim g.contract_id [ none ↦ rest | some d ↦ if d === c then some g else rest ]

unfoldable pub get_gift_by_contract_id : String → World → Option Gift
unfolding find_contract
get_gift_by_contract_id c w = find_contract c (values w.gifts)

abbrev pub event_status : EscrowEventType → GiftStatus
event_status gift_created = locked
event_status gift_claimed = claimed
event_status gift_cancelled = cancelled
event_status gift_expired = expired

abbrev pub event_gift : EscrowEvent → World → Option Gift
event_gift event w =
    if event.gift_id === ""
    then get_gift_by_contract_id event.contract_id w
    else get_gift_by_id event.gift_id w

-- `applyEvent`, and whether it counts the event as applied.
unfoldable pub apply_event : Env → EscrowEvent → World → World × Bool
apply_event env event w = elim (event_gift event w) [
  | none ↦ (w, false)
  | some gift ↦
      if is_status gift.status (event_status event.kind)
      then (w, false)
      else ((update_gift_status_idempotent env gift.id (event_status event.kind) w).0, true)
]

pub record Counts : Type 0 where
  pub processed : ℕ
  pub skipped : ℕ

count : Bool → Counts → Counts
count true c = record c { processed = c.processed + 1 }
count false c = record c { skipped = c.skipped + 1 }

-- The loop of `indexEscrowEvents`.
unfoldable pub apply_all : Env → List EscrowEvent → World → Counts → World × Counts
unfolding count
apply_all env [] w c = (w, c)
apply_all env (e ∷ es) w c =
    let (w', applied) = apply_event env e w in apply_all env es w' (count applied c)

-- The world, and the value under the cursor's key in Redis.
pub record Indexer : Type 0 where
  pub world : World
  pub cursor : Option String

abbrev start_cursor : Option String → String
start_cursor none = cursor_genesis
start_cursor (some c) = c

-- `indexEscrowEvents`, with the configured contract id: its counts and the latest cursor.
unfoldable pub index_escrow_events :
    Env → String → (String → Response) → Indexer → Indexer × Counts × String
unfolding cursor_genesis
index_escrow_events env contract_id node s =
    if contract_id === ""
    then (s, record { processed = 0; skipped = 0 }, cursor_genesis)
    else (let start = start_cursor s.cursor in
        let (events, latest) = fetch_escrow_events node start in
        let (w, counts) = apply_all env events s.world (record { processed = 0; skipped = 0 }) in
        (
          record { world = w; cursor = if latest === start then s.cursor else some latest },
          counts,
          latest,
        ))
