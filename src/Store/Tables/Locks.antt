-- ===== src/Store/Tables/Locks.antt =====
-- The lock table: one holder to a resource.
use nox_yard.Prelude.{
  inr, inl, Option-cases, ◌&&◌, false, Option, Bool, not, ◌=ₛ◌, if◌then◌else◌, String, ◌≡◌, refl,
  none, some, List, [], ◌∷◌, arith, eq_iff,
}
use nox_yard.Store.Types.{Lock}
use nox_yard.Store.Tables.{lock_holder, release}

-- Whether the lock of a resource belongs to a job.
abbrev pub is_holder : Option String → String → Bool
is_holder none id = false
is_holder (some h) id = h =ₛ id

abbrev pub is_held_by : String → String → List Lock → Bool
is_held_by r id locks = is_holder (lock_holder r locks) id

-- `resource` is the primary key of the lock table.
abbrev pub UniqueLocks : List Lock → Type 0
UniqueLocks [] = Unit {0}
UniqueLocks (l ∷ ls) = (lock_holder l.resource ls ≡ none) × UniqueLocks ls

-- DELETE takes away the locks of one job and no other.
pub lock_holder-release :
    (id r : String) (locks : List Lock)
    → UniqueLocks locks
    → lock_holder r (release id locks)
      ≡ elim (lock_holder r locks) [ none ↦ none | some h ↦ if h =ₛ id then none else some h ]
unfolding lock_holder release
lock_holder-release id r [] u = refl
lock_holder-release id r (l ∷ ls) u =
    ground (arith, lock_holder-release id r ls u.1, eq_iff l.resource r)

pub release-UniqueLocks :
    (id : String) (locks : List Lock) → UniqueLocks locks → UniqueLocks (release id locks)
unfolding release
release-UniqueLocks id [] u = tt
release-UniqueLocks id (l ∷ ls) u =
    ground (arith, release-UniqueLocks id ls u.1, lock_holder-release id l.resource ls u.1)

pub is_held_by-release :
    (id r h : String) (locks : List Lock)
    → UniqueLocks locks
    → is_held_by r h (release id locks) ≡ (not (h =ₛ id) && is_held_by r h locks)
is_held_by-release id r h locks u = elim (Option-cases (lock_holder r locks)) [
  | inl e ↦ rw (lock_holder-release id r locks u, e) (ground arith)
  | inr (o, e) ↦
      rw (lock_holder-release id r locks u, e)
        (ground (arith, eq_iff o id, eq_iff o h, eq_iff h id))
]
