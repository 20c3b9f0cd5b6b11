-- ===== src/Store/Tables/Rows.antt =====
-- What UPDATE and INSERT do to the row that a primary key finds.
use nox_yard.Prelude.{
  ◌=ₛ◌, if◌then◌else◌, is_some, String, ◌≡◌, refl, Bool, true, none, some, List, [], ◌∷◌, ◌++◌,
  arith, eq_iff,
}
use nox_yard.Store.Types.{Row}
use nox_yard.Store.Tables.{update_where, count_where, find_row}
use mathlib.Core.Option

module _ (hit : Row → Bool) (f : Row → Row) (same_id : (x : Row) → (f x).job.id ≡ x.job.id) where
  pub find_row-update_where :
      (id : String) (rows : List Row)
      → find_row id (update_where hit f rows)
        ≡ Option.map (λ x. if hit x then f x else x) (find_row id rows)
  unfolding find_row update_where
  find_row-update_where id [] = refl
  find_row-update_where id (x ∷ xs) = ground (arith, find_row-update_where id xs, same_id x)

pub find_row-append :
    (id : String) (rows : List Row) (x : Row)
    → find_row id (rows ++ x ∷ []) ≡ (
        if is_some (find_row id rows)
        then find_row id rows
        else if x.job.id =ₛ id
        then some x
        else none)
unfolding find_row
find_row-append id [] x = refl
find_row-append id (y ∷ ys) x = ground (arith, find_row-append id ys x)

pub find_row_id :
    (id : String) (rows : List Row) (x : Row) → find_row id rows ≡ some x → x.job.id ≡ id
unfolding find_row
find_row_id id [] x h = cc
find_row_id id (y ∷ ys) x h = ground (arith, eq_iff y.job.id id, find_row_id id ys x)

-- The ids of a table are a primary key.
abbrev pub UniqueIds : List Row → Type 0
UniqueIds [] = Unit {0}
UniqueIds (x ∷ xs) = (find_row x.job.id xs ≡ none) × UniqueIds xs

module _ (hit : Row → Bool) (f : Row → Row) (same_id : (x : Row) → (f x).job.id ≡ x.job.id) where
  pub update_where-UniqueIds :
      (rows : List Row) → UniqueIds rows → UniqueIds (update_where hit f rows)
  unfolding update_where
  update_where-UniqueIds [] u = tt
  update_where-UniqueIds (x ∷ xs) u = ground (
    arith,
    same_id x,
    update_where-UniqueIds xs u.1,
    find_row-update_where hit f same_id x.job.id xs,
  )

pub append-UniqueIds :
    (rows : List Row) (x : Row)
    → UniqueIds rows
    → find_row x.job.id rows ≡ none
    → UniqueIds (rows ++ x ∷ [])
unfolding find_row
append-UniqueIds [] x u h = (refl, tt)
append-UniqueIds (y ∷ ys) x u h = ground (
  arith,
  find_row-append y.job.id ys x,
  append-UniqueIds ys x u.1,
  eq_iff x.job.id y.job.id,
  eq_iff y.job.id x.job.id,
)

-- A statement that names an id touches one row exactly when that row passes the rest of the test.
pub count_where-find_row :
    (id : String) (hit : Row → Bool) (rows : List Row)
    → ((x : Row) → hit x ≡ true → x.job.id ≡ id)
    → UniqueIds rows
    → count_where hit rows ≡ elim (find_row id rows) [ none ↦ 0 | some x ↦ if hit x then 1 else 0 ]
unfolding count_where find_row
count_where-find_row id hit [] only u = refl
count_where-find_row id hit (y ∷ ys) only u =
    ground (arith, only y, count_where-find_row id hit ys only u.1, eq_iff y.job.id id)
