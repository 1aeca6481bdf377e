-- ===== src/Lib.antt =====
-- Lumigift: gifts of money in naira that are locked as USDC in an escrow contract until a date. A
-- sender creates a gift and pays by Paystack or Stripe; the payment routes move it through its
-- statuses; a scheduled job unlocks it; the recipient claims it, which a queue worker pays out; the
-- contract's events are indexed back into the same store. Group gifts collect contributions.
--
-- The files, with the sources they model:
--  Gift/Status          src/server/services/gift-state-machine.ts, and the statuses of
--                       src/types/index.ts. Gift/Status/Chains: sequences of transitions.
--  Gift/Defs            the gift of src/types/index.ts, `createAuditLog` of
--                       src/server/services/audit.service.ts, and the state: the map `gifts`, the
--                       audit rows and what was sent to other services.
--  Gift/Service         src/server/services/gift.service.ts, its operations on one gift:
--                       `updateGiftStatus`, `updateGiftStatusIdempotent`, `cancelGift`,
--                       `storeClaimTxHash`, `softDeleteGift`, `restoreGift`, `getGiftById`. Proofs
--                       in Gift/Evolution (histories of calls) and Gift/Updates (branches).
--  Gift/Create          `createGift` of the same file. Proofs in Gift/Sending (its branches),
--                       Gift/DailyLimit (what a gift adds to a day) and Gift/InFlight (the limit over
--                       calls that overlap).
--  Gift/Pages           the listings, paginations and statistics of the same file. Proofs in
--                       Gift/Walk (following cursors), Gift/Listing (order and counts) and
--                       Gift/OffsetPages.
--  Fraud                `checkGiftForFraud` of src/server/services/fraud.service.ts. Proofs in
--                       Fraud/Rules.
--  Fraud/Flags          the flags of the same file and src/app/api/v1/admin/fraud-flags. Proofs in
--                       Fraud/Flags/Queue.
--  EventIndexer         src/server/services/event-indexer.service.ts and
--                       src/lib/contracts/escrow-events.ts. Proofs in EventIndexer/Replay.
--  GroupGift            src/server/services/group-gift.service.ts. Proofs in GroupGift/Totals.
--  Phone                src/lib/phone.ts. Proofs in Phone/Normal.
--  Claim                src/server/services/claim.service.ts and the worker of
--                       src/lib/queues/stellar-tx.queue.ts. Proofs in Claim/Worker.
--  Invitations          src/server/services/invitation.service.ts, over the rows of
--                       gift_invitations.
--  ClaimRoute           src/app/api/v1/gifts/[id]/challenge/route.ts and .../claim/route.ts, over
--                       Redis, the invitations and the gifts. Proofs in ClaimRoute/Keys (what a claim
--                       does with the keys), ClaimRoute/InFlight (claims that overlap), ClaimRoute/Strangers,
--                       ClaimRoute/Rows (what it does with the invitations), ClaimRoute/Refused
--                       (claims without a usable one) and ClaimRoute/LockedOut.
--  Scheduler            src/server/services/scheduler.service.ts. Proofs in Scheduler/Expiry.
--  ExchangeRate         src/server/services/exchange-rate.service.ts. Proofs in
--                       ExchangeRate/Slippage.
--  RateLimit            `rateLimit` of src/server/middleware/index.ts. Proofs in RateLimit/Window.
--  Payments             src/app/api/v1/payments/route.ts, .../payments/callback/route.ts and
--                       .../payments/stripe/webhook/route.ts. Proofs in Payments/Pending and
--                       Payments/Routes.
--  Guards/Csrf          src/lib/csrf.ts. Proofs in Guards/Csrf/Tokens (what a token is) and
--                       Guards/Csrf/Admission (what `withCsrf` lets through).
--  Guards/Cron          src/lib/cron-auth.ts. Proofs in Guards/Cron/Windows.
--  Guards/Cors          src/server/middleware/cors.ts, and the setting of src/server/config/index.ts.
--                       Proofs in Guards/Cors/Origins.
--  Cancellation         DELETE of src/app/api/v1/gifts/[id]/route.ts, behind `withCsrf`. Proofs in
--                       Cancellation/Refunds (one refund), Cancellation/InFlight (deletions that
--                       overlap) and Cancellation/Access.
--  Redis                the commands that the code sends to Redis and what their documentation says
--                       of them: an interface, that is the parameter of the modules that use it.
--  Otp                  src/lib/otp.ts, over Redis. Proofs in Otp/Counting (what the counter counts)
--                       and Otp/Guesses.
--  SendOtp              src/app/api/v1/auth/send-otp/route.ts, over Redis. Proofs in SendOtp/Apart
--                       (its keys differ) and SendOtp/Limit.
--  Takeover             src/server/services/account-takeover.service.ts and
--                       src/app/api/v1/auth/verify-otp/route.ts, over Otp. Proofs in
--                       Takeover/Flagging.
--  Tokens               src/server/services/token.service.ts, with the constraints of
--                       migrations/0005_add_refresh_tokens.sql. Tokens/Sessions: the abstract view,
--                       a list of sessions. Proofs in Tokens/Unique (the constraints),
--                       Tokens/Rotation (the statements), Tokens/Replies (each call by cases),
--                       Tokens/Refines and Tokens/SingleUse.
--  AuthSession          the callbacks of NextAuth in src/lib/auth.ts, over Tokens, and
--                       src/lib/jwt-rotation.ts. Proofs in AuthSession/Stale and AuthSession/Secrets.
--  Registration         src/app/api/v1/auth/register/route.ts, over the users and Invitations. Proofs in
--                       Registration/Ids (the invitation that is found), Registration/HalfDone (one
--                       registration), Registration/Stuck (registrations and claims in turn) and
--                       Registration/Owners.
--  Admin                src/server/middleware/admin.ts, `withAdmin`, src/server/services/
--                       admin-gift.service.ts and admin.service.ts, and the routes of
--                       src/app/api/v1/admin/gifts/[id]/restore and src/app/api/admin/gifts/[id].
--                       Proofs in Admin/Deeds and Admin/Deleted.
--  UserDeletion         src/server/services/user-deletion.service.ts, with the constraint on phone
--                       numbers of migrations/0002_normalize_phone_e164.sql. Proofs in
--                       UserDeletion/Constraint.
--  System               the payment routes, the jobs and the indexer as requests that the process
--                       serves in turn. Proofs in System/Stuck.
--  Tests                runs on sample data, and each result at a concrete input.
--
-- How the code is read. A function that changes the state takes it and returns it, with a result or an
-- error; what was written before a `throw` stays written. JavaScript maps are association lists that
-- keep the place of a key. Times are milliseconds and amounts whole numbers, as natural numbers. The
-- clock, drawn ids, the answers of the database, Redis, Paystack, Stripe, Stellar, SMS and the RPC
-- node are arguments: for each call, whether it goes through and what it returns. A handler or
-- a call is one step, and requests are served one after another, but in three places where a check and
-- the write that it guards are apart: createGift in flight between the daily limit and `gifts.set`
-- (Gift/InFlight), DELETE between its checks and the answer of Paystack (Cancellation/InFlight), and a
-- claim between GET and DEL of its challenge (ClaimRoute/InFlight). There a call begins and goes on as
-- two moves, with any others in between, and a bound on the calls in flight is an argument. Other
-- interleavings at an `await` are not modelled. Every loop of the
-- code runs over a list, and the queue's retries over the list of its attempts; after which errors the
-- queue tries again is an argument. The one loop on fuel prints a number in decimal (Common/Decimal):
-- its fuel is the number, and a round divides by ten. Times in Otp, SendOtp, Takeover and Guards/Cron
-- are seconds where the code counts seconds. A text that is taken apart is the list of its character
-- codes; hashes and HMACs are arguments, of which the guards use no more than that they are
-- hexadecimal.
--
-- Not modelled: the user interface, the clients of other services, NextAuth (a library) and its
-- `authorize`, SQL that only reads, logging and metrics; also wishlists, the search of the
-- administrator's list of gifts, and the banned users.
pub mod Common
pub mod Fraud
pub mod Gift
pub mod EventIndexer
pub mod GroupGift
pub mod Phone
pub mod Claim
pub mod Scheduler
pub mod ExchangeRate
pub mod RateLimit
pub mod Redis
pub mod Otp
pub mod Tokens
pub mod Admin
pub mod Invitations
pub mod ClaimRoute
pub mod Registration
pub mod AuthSession
pub mod Takeover
pub mod SendOtp
pub mod UserDeletion
pub mod Guards
pub mod Cancellation
pub mod Payments
pub mod System
pub mod Tests
