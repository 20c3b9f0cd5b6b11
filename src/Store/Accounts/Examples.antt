-- ===== src/Store/Accounts/Examples.antt =====
-- The theorems of the accounts at a concrete state.
use nox_yard.Prelude.{
  ltb, if◌then◌else◌, err, ok, is_ok, ℕ, String, ◌≡◌, refl, ◌≢◌, none, some, [], arith, eq_iff,
}
use nox_yard.Store.Types.{Tx}
use nox_yard.Store.Accounts.{
  Admin, Accounts, has_admin, reset_admin_password, create_session, delete_session, prune_sessions,
}
use nox_yard.Store.Accounts.Sessions.{
  answer, has_unique_tokens, admin_name, session_lasts, reset_ends_sessions,
}

abbrev owner : Admin
owner = record { username = "ana"; password_hash = "h" }

abbrev with_owner : Accounts
with_owner = record { admin = some owner; sessions = [] }

abbrev or_owner : Tx Accounts → Accounts
or_owner (ok a) = a
or_owner (err e) = with_owner

abbrev signed_in : Accounts
signed_in = or_owner (create_session 100 "t1" "c1" 200 with_owner)

abbrev one : String
one = "t1"

abbrev two : String
two = "t2"

different : one ≢ two
different = ground (arith, eq_iff "t1" "t2")

session_lasts_example :
    (answer 150 "t1" signed_in ≡ (
      if ltb 150 200
      then some (record { username = "ana"; csrf_token = "c1"; expires_at = 200 })
      else none))
    × (answer 150 "t1" (delete_session "t1" signed_in) ≡ none)
    × ((token : String)
        → answer 150 token (prune_sessions 120 signed_in) ≡ answer 150 token signed_in)
    × (answer 150 "t2" signed_in ≡ answer 150 "t2" with_owner)
    × (answer 150 "t2" (delete_session "t1" signed_in) ≡ answer 150 "t2" signed_in)
unfolding create_session has_unique_tokens
session_lasts_example =
    session_lasts 100 120 150 "t1" "t2" "c1" 200 with_owner signed_in owner refl refl refl
      (omega arith) different

reset_ends_sessions_example :
    (is_ok (reset_admin_password "h2" signed_in) ≡ has_admin signed_in)
    × ((b : Accounts)
        → reset_admin_password "h2" signed_in ≡ ok b
        → (later : ℕ) (h : String)
        → (answer later h b ≡ none) × (admin_name b.admin ≡ admin_name signed_in.admin))
reset_ends_sessions_example = reset_ends_sessions "h2" signed_in
