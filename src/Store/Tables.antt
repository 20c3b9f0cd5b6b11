-- ===== src/Store/Tables.antt =====
-- What the SQL statements of internal/store do to a table: UPDATE ... WHERE, the count of the rows
-- it touched, and the lookups by primary key.
pub mod Rows
pub mod Locks
use nox_yard.Prelude.{
  ℕ, ◌+◌, String, Bool, List, [], ◌∷◌, Option, none, some, ◌=ₛ◌, ◌==◌, if◌then◌else◌, ok, err,
}
use nox_yard.Store.Types.{Row, Lock, Tx, job_changed}
use mathlib.Core.Option

module _ {A : Type 0} where
  unfoldable pub update_where : (A → Bool) → (A → A) → List A → List A
  update_where hit f [] = []
  update_where hit f (x ∷ xs) = (if hit x then f x else x) ∷ update_where hit f xs

  unfoldable pub count_where : (A → Bool) → List A → ℕ
  count_where hit [] = 0
  count_where hit (x ∷ xs) = (if hit x then 1 else 0) + count_where hit xs

-- `changed`: a statement must have touched one row.
unfoldable pub changed : ℕ → Tx (Unit {0})
changed count = if count == 1 then ok tt else err job_changed

unfoldable pub find_row : String → List Row → Option Row
find_row id [] = none
find_row id (x ∷ xs) = let rest = find_row id xs in if x.job.id =ₛ id then some x else rest

unfoldable pub lock_holder : String → List Lock → Option String
lock_holder r [] = none
lock_holder r (l ∷ ls) =
    let rest = lock_holder r ls in if l.resource =ₛ r then some l.holder else rest

-- DELETE FROM operation_locks WHERE job_id=?
unfoldable pub release : String → List Lock → List Lock
release id [] = []
release id (l ∷ ls) = let rest = release id ls in if l.holder =ₛ id then rest else l ∷ rest
