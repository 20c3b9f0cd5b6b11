-- ===== src/Lifecycle/Lock.antt =====
-- lifecycle/lock.go: contextMutex, whose channel holds one token, as steps of several requests.
use nox_yard.Prelude.{
  get_elem?, filter_length, ℕ, zero, suc, ◌+◌, ◌≤◌, ◌≡◌, refl, Bool, true, false, some, List, [],
  ◌∷◌, arith,
}

-- A request before its first look at its context, in the select, past the send of the token and
-- before its second look, between Lock and Unlock, refused by Lock, and past Unlock.
pub data Phase : Type 0 where
  arriving selecting sent inside refused finished : Phase

pub record Mutex : Type 0 where
  pub token : Bool
  pub phases : List Phase

-- The phases with one of them replaced.
unfoldable pub replaced : ℕ → Phase → List Phase → List Phase
replaced i p [] = []
replaced zero p (x ∷ xs) = p ∷ xs
replaced (suc i) p (x ∷ xs) = x ∷ replaced i p xs

unfoldable pub moved : ℕ → Phase → Bool → Mutex → Mutex
unfolding replaced
moved i p token m = record { token = token; phases = replaced i p m.phases }

-- One action of the request `i`. A context may end at any time, so a step that needs it ended and
-- one that needs it open are both possible.
pub data MutexStep (m : Mutex) : Mutex → Type 0 where
  refuses_ended :
      (i : ℕ) → get_elem? m.phases i ≡ some arriving → MutexStep m (moved i refused m.token m)
  selects :
      (i : ℕ) → get_elem? m.phases i ≡ some arriving → MutexStep m (moved i selecting m.token m)
  sends_token :
      (i : ℕ)
      → get_elem? m.phases i ≡ some selecting
      → m.token ≡ false
      → MutexStep m (moved i sent true m)
  gives_up :
      (i : ℕ) → get_elem? m.phases i ≡ some selecting → MutexStep m (moved i refused m.token m)
  backs_out : (i : ℕ) → get_elem? m.phases i ≡ some sent → MutexStep m (moved i refused false m)
  enters : (i : ℕ) → get_elem? m.phases i ≡ some sent → MutexStep m (moved i inside m.token m)
  unlocks : (i : ℕ) → get_elem? m.phases i ≡ some inside → MutexStep m (moved i finished false m)

-- The states that are reached from the zero value, with requests that have not begun.
unfoldable pub all_arriving : ℕ → List Phase
all_arriving zero = []
all_arriving (suc n) = arriving ∷ all_arriving n

pub data Reached (n : ℕ) : Mutex → Type 0 where
  begins : Reached n (record { token = false; phases = all_arriving n })
  goes_on : (m after : Mutex) → Reached n m → MutexStep m after → Reached n after

-- Whether a request has taken the token and not yet given it back.
unfoldable pub owns : Phase → ℕ
owns arriving = 0
owns selecting = 0
owns sent = 1
owns inside = 1
owns refused = 0
owns finished = 0

unfoldable pub owners : List Phase → ℕ
unfolding owns
owners [] = 0
owners (p ∷ ps) = owns p + owners ps

unfoldable pub is_inside : Phase → Bool
is_inside arriving = false
is_inside selecting = false
is_inside sent = false
is_inside inside = true
is_inside refused = false
is_inside finished = false

owners-replaced :
    (i : ℕ) (p q : Phase) (ps : List Phase)
    → get_elem? ps i ≡ some p
    → owners (replaced i q ps) + owns p ≡ owners ps + owns q
unfolding owners replaced
owners-replaced i p q [] h = cc
owners-replaced zero p q (x ∷ xs) h = ground arith
owners-replaced (suc i) p q (x ∷ xs) h = omega (arith, owners-replaced i p q xs h)

abbrev held : Bool → ℕ
held true = 1
held false = 0

IsHeld : Mutex → Type 0
IsHeld m = owners m.phases ≡ held m.token

owners-all_arriving : (n : ℕ) → owners (all_arriving n) ≡ 0
unfolding owners all_arriving owns
owners-all_arriving zero = refl
owners-all_arriving (suc n) = omega (arith, owners-all_arriving n)

MutexStep-IsHeld : {m after : Mutex} → MutexStep m after → IsHeld m → IsHeld after
unfolding IsHeld moved owns
MutexStep-IsHeld {m} (refuses_ended i e) h =
    omega (arith, owners-replaced i arriving refused m.phases e)
MutexStep-IsHeld {m} (selects i e) h =
    omega (arith, owners-replaced i arriving selecting m.phases e)
MutexStep-IsHeld {m} (sends_token i e f) h =
    ground (arith, owners-replaced i selecting sent m.phases e)
MutexStep-IsHeld {m} (gives_up i e) h =
    omega (arith, owners-replaced i selecting refused m.phases e)
MutexStep-IsHeld {m} (backs_out i e) h = ground (arith, owners-replaced i sent refused m.phases e)
MutexStep-IsHeld {m} (enters i e) h = omega (arith, owners-replaced i sent inside m.phases e)
MutexStep-IsHeld {m} (unlocks i e) h = ground (arith, owners-replaced i inside finished m.phases e)

Reached-IsHeld : {n : ℕ} {m : Mutex} → Reached n m → IsHeld m
unfolding IsHeld
Reached-IsHeld {n} begins = owners-all_arriving n
Reached-IsHeld (goes_on m after r s) = MutexStep-IsHeld s (Reached-IsHeld r)

inside-owners : (ps : List Phase) → filter_length is_inside ps ≤ owners ps
unfolding owners owns is_inside
inside-owners [] = omega arith
inside-owners (p ∷ ps) = ground (arith, inside-owners ps)

-- However the requests and the ends of their contexts interleave, one request at most is between
-- Lock and Unlock; and when no request owns the token, the channel is free for the next send.
pub mutex_excludes :
    (n : ℕ) (m : Mutex)
    → Reached n m
    → (filter_length is_inside m.phases ≤ 1) × (owners m.phases ≡ 0 → m.token ≡ false)
unfolding IsHeld
mutex_excludes n m r =
    let h = Reached-IsHeld r in (ground (arith, inside-owners m.phases, h), λ z. ground (arith, h))
