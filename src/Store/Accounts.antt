-- ===== src/Store/Accounts.antt =====
-- store/store.go: the administrator and the sessions. Passwords and tokens arrive hashed.
mod Examples
pub mod Sessions
use nox_yard.Prelude.{
  ltb, leb, ◌=ₛ◌, if◌then◌else◌, is_some, select, every, err, ok, ◌>>=◌, ◌>>◌, guard, ℕ, String,
  Bool, not, Option, none, some, List, [], ◌∷◌,
}
use nox_yard.Store.Types.{constraint, no_admin, admin_exists, Tx}

pub record Admin : Type 0 where
  pub username : String
  pub password_hash : String

pub record Session : Type 0 where
  pub username : String
  pub csrf_token : String
  pub expires_at : ℕ

-- A row of sessions, whose primary key is `token_hash`.
pub record SessionRow : Type 0 where
  pub token_hash : String
  pub csrf_token : String
  pub expires_at : ℕ
  pub created_at : ℕ

-- administrators, whose id can only be 1, and sessions.
pub record Accounts : Type 0 where
  pub admin : Option Admin
  pub sessions : List SessionRow

-- HasAdmin
abbrev pub has_admin : Accounts → Bool
has_admin a = is_some a.admin

-- Store.Admin
unfoldable pub admin_of : Option Admin → Tx Admin
admin_of none = err no_admin
admin_of (some x) = ok x

abbrev pub read_admin : Accounts → Tx Admin
read_admin a = admin_of a.admin

-- CreateAdmin: the INSERT fails on a second row, which HasAdmin then tells apart.
unfoldable pub create_admin : String → String → Accounts → Tx Accounts
create_admin username password_hash a = do
  guard (not (has_admin a)) admin_exists
  ok (record a { admin = some (record { username = username; password_hash = password_hash }) })

-- ResetAdminPassword: every session ends with the old password.
unfoldable pub reset_admin_password : String → Accounts → Tx Accounts
unfolding admin_of
reset_admin_password password_hash a = do
  old ← admin_of a.admin
  ok (record { admin = some (record old { password_hash = password_hash }); sessions = [] })

unfoldable pub find_session : String → List SessionRow → Option SessionRow
find_session token_hash [] = none
find_session token_hash (s ∷ ss) =
    let rest = find_session token_hash ss in if s.token_hash =ₛ token_hash then some s else rest

-- CreateSession
unfoldable pub create_session : ℕ → String → String → ℕ → Accounts → Tx Accounts
unfolding find_session
create_session now token_hash csrf_token expires_at a = do
  guard (not (is_some (find_session token_hash a.sessions))) constraint
  ok (record a {
    sessions =
        record {
          token_hash = token_hash;
          csrf_token = csrf_token;
          expires_at = expires_at;
          created_at = now;
        }
        ∷ a.sessions;
  })

-- DeleteSession
unfoldable pub delete_session : String → Accounts → Accounts
delete_session token_hash a = record a {
  sessions = select (λ s. not (s.token_hash =ₛ token_hash)) a.sessions;
}

-- PruneSessions
unfoldable pub prune_sessions : ℕ → Accounts → Accounts
prune_sessions now a = record a { sessions = select (λ s. not (leb s.expires_at now)) a.sessions }

-- Store.Session: the joined row, and the deletion of one that has expired.
unfoldable pub joined : Option SessionRow → Option Admin → Option Session
joined none x = none
joined (some s) none = none
joined (some s) (some x) =
    some (record { username = x.username; csrf_token = s.csrf_token; expires_at = s.expires_at })

unfoldable pub live_session : ℕ → String → Option Session → Accounts → Option Session × Accounts
unfolding delete_session
live_session now token_hash none a = (none, a)
live_session now token_hash (some s) a =
    if ltb now s.expires_at then (some s, a) else (none, delete_session token_hash a)

unfoldable pub read_session : ℕ → String → Accounts → Option Session × Accounts
unfolding find_session joined live_session
read_session now token_hash a =
    live_session now token_hash (joined (find_session token_hash a.sessions) a.admin) a
