-- ===== src/Tests/Sessions.antt =====
-- Refresh tokens.
use lumigift_lumigift.Common.{ℕ, ◌≡◌, refl, String, true, List, [], ◌∷◌, none, some}
use lumigift_lumigift.Tokens.{Rows, Draw, Db, Call, create, rotate, revoke, find_token, serve_call}
use lumigift_lumigift.Tokens.Sessions.{sessions}
use lumigift_lumigift.Tokens.Unique.{IsUnique}
use lumigift_lumigift.Tokens.Refines.{serve_calls, carried_calls, ask_all, serve_calls-ask_all}
use lumigift_lumigift.Tokens.SingleUse.{rotate_once}

abbrev pub healthy : Db
healthy = record {
  connects = true;
  begins = true;
  selects = true;
  inserts = true;
  updates = true;
  commits = true;
  rolls_back = true;
}

abbrev pub drawing : String → String → ℕ → Draw
drawing row_id drawn now = record { row_id = row_id; drawn = drawn; now = now; db_now = now }

-- A login, a rotation, the old token again, a rotation whose token is in use, and a logout.
abbrev pub calls : List Call
calls =
    create true (drawing "r1" "t1" 1000) "u1"
    ∷ rotate healthy (drawing "r2" "t2" 2000) "t1" "u1"
    ∷ rotate healthy (drawing "r3" "t3" 3000) "t1" "u1"
    ∷ rotate healthy (drawing "r4" "t1" 4000) "t2" "u1"
    ∷ revoke true 5000 "u1"
    ∷ rotate healthy (drawing "r5" "t5" 6000) "t2" "u1"
    ∷ []

calls_lem : (serve_calls calls []).1 ≡ some "t1" ∷ some "t2" ∷ none ∷ none ∷ none ∷ none ∷ []
unfolding serve_calls serve_call find_token
calls_lem = refl

serve_calls-ask_all_example :
    (sessions (serve_calls calls []).0, (serve_calls calls []).1)
    ≡ ask_all (carried_calls calls []) (sessions [])
unfolding IsUnique
serve_calls-ask_all_example = serve_calls-ask_all calls [] tt

abbrev pub one_row : Rows
one_row =
    record {
      id = "r1";
      user_id = "u1";
      token = "t1";
      expires_at = 9000;
      revoked_at = none;
      replaced_by = none;
    }
    ∷ []

rotate_once_example :
    let t' =
      (serve_calls calls
        (serve_call (rotate healthy (drawing "r6" "t6" 8000) "t1" "u1") one_row).0).0 in
    (serve_call (rotate healthy (drawing "r7" "t7" 8500) "t1" "u1") t').1 ≡ none
unfolding IsUnique serve_call find_token
rotate_once_example =
    rotate_once healthy healthy (drawing "r6" "t6" 8000) (drawing "r7" "t7" 8500) "t1" "u1" "u1"
      "t6" calls one_row (refl, tt) refl
