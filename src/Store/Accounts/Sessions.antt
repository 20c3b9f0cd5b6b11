-- ===== src/Store/Accounts/Sessions.antt =====
-- store/store.go: how long a session lasts.
use nox_yard.Prelude.{
  ltb, leb, ◌=ₛ◌, if◌then◌else◌, Bool-cases, Option-cases, eq_of_test, test_of_ne, is_some, select,
  ok, is_ok, ℕ, ◌≤◌, String, ◌≡◌, refl, sym, ◌∙◌, ◌≢◌, inl, inr, Bool, true, ◌&&◌, not, Option,
  none, some, List, [], ◌∷◌, arith, eq_refl,
}
use nox_yard.Store.Accounts.{
  Admin, Session, SessionRow, Accounts, has_admin, admin_of, reset_admin_password, find_session,
  create_session, delete_session, prune_sessions, joined, live_session, read_session,
}

-- What Store.Session answers.
abbrev pub answer : ℕ → String → Accounts → Option Session
answer now token_hash a = (read_session now token_hash a).0

-- No two sessions have one token.
unfoldable pub has_unique_tokens : List SessionRow → Bool
unfolding find_session
has_unique_tokens [] = true
has_unique_tokens (s ∷ ss) = not (is_some (find_session s.token_hash ss)) && has_unique_tokens ss

-- The sessions that pass a test, of those that have unique tokens.
unfoldable pub kept : (SessionRow → Bool) → Option SessionRow → Option SessionRow
kept p none = none
kept p (some s) = if p s then some s else none

find_session-select :
    (p : SessionRow → Bool) (h : String) (ss : List SessionRow)
    → has_unique_tokens ss ≡ true
    → find_session h (select p ss) ≡ kept p (find_session h ss)
unfolding find_session has_unique_tokens kept
find_session-select p h [] u = refl
find_session-select p h (s ∷ ss) u = elim (Bool-cases (s.token_hash =ₛ h)) [
  | inl e ↦ ground (arith, find_session-select p h ss, eq_of_test s.token_hash h e)
  | inr e ↦ ground (arith, find_session-select p h ss)
]

-- When Store.Session looks a token up: the administrator and an unexpired row.
unfoldable pub live : ℕ → Option SessionRow → Option Admin → Option Session
live now none x = none
live now (some s) none = none
live now (some s) (some x) =
    if ltb now s.expires_at
    then some
        (record { username = x.username; csrf_token = s.csrf_token; expires_at = s.expires_at })
    else none

live_session-live :
    (now : ℕ) (h : String) (o : Option SessionRow) (x : Option Admin) (a : Accounts)
    → (live_session now h (joined o x) a).0 ≡ live now o x
unfolding live_session joined live
live_session-live now h none x a = refl
live_session-live now h (some s) none a = refl
live_session-live now h (some s) (some x) a = ground arith

answer-live :
    (now : ℕ) (h : String) (a : Accounts)
    → answer now h a ≡ live now (find_session h a.sessions) a.admin
unfolding read_session
answer-live now h a = live_session-live now h (find_session h a.sessions) a.admin a

live-kept :
    (past now : ℕ) (o : Option SessionRow) (x : Option Admin)
    → past ≤ now
    → live now (kept (λ s. not (leb s.expires_at past)) o) x ≡ live now o x
unfolding live kept
live-kept past now none x l = refl
live-kept past now (some s) none l = ground arith
live-kept past now (some s) (some x) l = ground arith

find_session-deleted :
    (h : String) (ss : List SessionRow)
    → find_session h (select (λ s. not (s.token_hash =ₛ h)) ss) ≡ none
unfolding find_session
find_session-deleted h [] = refl
find_session-deleted h (s ∷ ss) = ground (arith, find_session-deleted h ss)

-- What a created session leaves: a new row in front, with unique tokens.
created-find :
    (now : ℕ) (h other csrf : String) (expires : ℕ) (a b : Accounts)
    → create_session now h csrf expires a ≡ ok b
    → find_session other b.sessions ≡ (
        if h =ₛ other
        then some
            (record { token_hash = h; csrf_token = csrf; expires_at = expires; created_at = now })
        else find_session other a.sessions)
unfolding create_session find_session
created-find now h other csrf expires a b e = ground arith

created_unique :
    (now : ℕ) (h csrf : String) (expires : ℕ) (a b : Accounts)
    → has_unique_tokens a.sessions ≡ true
    → create_session now h csrf expires a ≡ ok b
    → (has_unique_tokens b.sessions ≡ true) × (b.admin ≡ a.admin)
unfolding create_session has_unique_tokens
created_unique now h csrf expires a b u e = (ground arith, ground arith)

created-answer :
    (now later : ℕ) (h csrf : String) (expires : ℕ) (a b : Accounts) (x : Admin)
    → b.admin ≡ some x
    → create_session now h csrf expires a ≡ ok b
    → answer later h b ≡ (
        if ltb later expires
        then some (record { username = x.username; csrf_token = csrf; expires_at = expires })
        else none)
unfolding live
created-answer now later h csrf expires a b x e c =
    answer-live later h b ∙ rw (created-find now h h csrf expires a b c, eq_refl h, e) refl

pruned-answer :
    (past later : ℕ) (h : String) (b : Accounts)
    → has_unique_tokens b.sessions ≡ true
    → past ≤ later
    → answer later h (prune_sessions past b) ≡ answer later h b
unfolding prune_sessions
pruned-answer past later h b u l =
    answer-live later h (prune_sessions past b)
    ∙ rw (find_session-select (λ s. not (leb s.expires_at past)) h b.sessions u)
        (live-kept past later (find_session h b.sessions) b.admin l)
    ∙ sym (answer-live later h b)

deleted-answer :
    (later : ℕ) (h : String) (b : Accounts) → answer later h (delete_session h b) ≡ none
unfolding delete_session live
deleted-answer later h b =
    answer-live later h (delete_session h b) ∙ rw (find_session-deleted h b.sessions) refl

kept_others :
    (h other : String) (ss : List SessionRow)
    → h ≢ other
    → find_session other (select (λ s. not (s.token_hash =ₛ h)) ss) ≡ find_session other ss
unfolding find_session
kept_others h other [] n = refl
kept_others h other (s ∷ ss) n = elim (Bool-cases (s.token_hash =ₛ h)) [
  | inl e ↦ rw (e, eq_of_test s.token_hash h e, test_of_ne h other n) (kept_others h other ss n)
  | inr e ↦ ground (arith, kept_others h other ss n)
]

others-answer :
    (later : ℕ) (h other : String) (b : Accounts)
    → h ≢ other
    → answer later other (delete_session h b) ≡ answer later other b
unfolding delete_session
others-answer later h other b n =
    answer-live later other (delete_session h b)
    ∙ rw (kept_others h other b.sessions n) refl
    ∙ sym (answer-live later other b)

other-answer :
    (now later : ℕ) (h other csrf : String) (expires : ℕ) (a b : Accounts)
    → b.admin ≡ a.admin
    → create_session now h csrf expires a ≡ ok b
    → h ≢ other
    → answer later other b ≡ answer later other a
other-answer now later h other csrf expires a b same c n =
    answer-live later other b
    ∙ rw (created-find now h other csrf expires a b c, test_of_ne h other n, same) refl
    ∙ sym (answer-live later other a)

-- The administrator's name.
unfoldable pub admin_name : Option Admin → Option String
admin_name none = none
admin_name (some x) = some x.username

reset-answer :
    (password_hash : String) (a b : Accounts) (later : ℕ) (h : String)
    → reset_admin_password password_hash a ≡ ok b
    → (answer later h b ≡ none) × (admin_name b.admin ≡ admin_name a.admin)
unfolding reset_admin_password admin_of admin_name live find_session
reset-answer password_hash a b later h e = elim (Option-cases a.admin) [
  | inl f ↦ ground arith
  | inr (x, f) ↦ (answer-live later h b ∙ ground arith, ground arith)
]

-- When the tokens of the stored sessions are unique and there is an administrator, a session that
-- CreateSession has stored is answered by Store.Session until its expiry and never from then on;
-- its deletion ends it; a pruning of the past changes the answer for no token; and what is answered
-- for any other token is as before, after the creation and after the deletion.
pub session_lasts :
    (now past later : ℕ) (h other csrf : String) (expires : ℕ) (a b : Accounts) (x : Admin)
    → has_unique_tokens a.sessions ≡ true
    → a.admin ≡ some x
    → create_session now h csrf expires a ≡ ok b
    → past ≤ later
    → h ≢ other
    → (answer later h b ≡ (
        if ltb later expires
        then some (record { username = x.username; csrf_token = csrf; expires_at = expires })
        else none))
      × (answer later h (delete_session h b) ≡ none)
      × ((token : String) → answer later token (prune_sessions past b) ≡ answer later token b)
      × (answer later other b ≡ answer later other a)
      × (answer later other (delete_session h b) ≡ answer later other b)
session_lasts now past later h other csrf expires a b x u e c l n =
    let (unique, same) = created_unique now h csrf expires a b u c in
    (
      created-answer now later h csrf expires a b x (same ∙ e) c,
      deleted-answer later h b,
      λ token. pruned-answer past later token b unique l,
      other-answer now later h other csrf expires a b same c n,
      others-answer later h other b n,
    )

-- ResetAdminPassword succeeds exactly when there is an administrator, whose name stays; no session
-- that was open before it is answered after it.
pub reset_ends_sessions :
    (password_hash : String) (a : Accounts)
    → (is_ok (reset_admin_password password_hash a) ≡ has_admin a)
      × ((b : Accounts)
          → reset_admin_password password_hash a ≡ ok b
          → (later : ℕ) (h : String)
          → (answer later h b ≡ none) × (admin_name b.admin ≡ admin_name a.admin))
unfolding reset_admin_password admin_of
reset_ends_sessions password_hash a = (
  elim (Option-cases a.admin) [ inl e ↦ rw (e) refl | inr (x, e) ↦ rw (e) refl ],
  λ b h later token. reset-answer password_hash a b later token h,
)
