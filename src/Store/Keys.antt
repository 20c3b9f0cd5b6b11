-- ===== src/Store/Keys.antt =====
-- store/jobs.go: the resource keys of a job. `insertJob` sorts them and drops the empty and the
-- repeated ones; the lock table is then claimed key by key.
pub mod Sets
pub mod Claiming
pub mod Order
pub mod Distinct
use nox_yard.Prelude.{
  ltb, ◌==◌, ◌=ₛ◌, if◌then◌else◌, ok, err, ℕ, String, Bool, true, false, Option, none, some, List,
  [], ◌∷◌,
}
use nox_yard.Store.Types.{operation_conflict, Tx, Lock}
use nox_yard.Store.Tables.{lock_holder}
use Prim.Native.Char.{code}

-- Go compares strings byte by byte, which for UTF-8 is the order of the code points.
abbrev pub codes : String → List ℕ
codes String.[] = []
codes (String.◌∷◌ c s) = code c ∷ codes s

unfoldable pub codes_le : List ℕ → List ℕ → Bool
codes_le [] ys = true
codes_le (x ∷ xs) [] = false
codes_le (x ∷ xs) (y ∷ ys) =
    let rest = codes_le xs ys in if ltb x y then true else if x == y then rest else false

unfoldable pub text_le : String → String → Bool
unfolding codes_le
text_le s t = codes_le (codes s) (codes t)

unfoldable pub insert_key : String → List String → List String
insert_key k [] = k ∷ []
insert_key k (x ∷ xs) = let rest = insert_key k xs in if text_le k x then k ∷ x ∷ xs else x ∷ rest

-- sort.Strings
unfoldable pub sort_strings : List String → List String
unfolding insert_key
sort_strings [] = []
sort_strings (x ∷ xs) = insert_key x (sort_strings xs)

-- `key != "" && (len(unique) == 0 || unique[len(unique)-1] != key)`, with the last key kept.
unfoldable pub drop_repeats : Option String → List String → List String
drop_repeats last [] = []
drop_repeats last (x ∷ xs) =
    let same = drop_repeats last xs in
    let fresh = x ∷ drop_repeats (some x) xs in
    if x =ₛ "" then same else elim last [ none ↦ fresh | some k ↦ if k =ₛ x then same else fresh ]

unfoldable pub unique_keys : List String → List String
unfolding drop_repeats sort_strings
unique_keys keys = drop_repeats none (sort_strings keys)

-- INSERT INTO operation_locks ... ON CONFLICT DO NOTHING for each key; a key that is held fails.
unfoldable pub claim_keys : List String → String → List Lock → Tx (List Lock)
claim_keys [] id locks = ok locks
claim_keys (key ∷ keys) id locks = elim (lock_holder key locks) [
  | none ↦ claim_keys keys id (record { resource = key; holder = id } ∷ locks)
  | some other ↦ err operation_conflict
]

-- RetargetJob: a key that another job holds fails, a key that the job holds stays.
unfoldable pub reserve_keys : List String → String → List Lock → Tx (List Lock)
reserve_keys [] id locks = ok locks
reserve_keys (key ∷ keys) id locks = elim (lock_holder key locks) [
  | none ↦ reserve_keys keys id (record { resource = key; holder = id } ∷ locks)
  | some other ↦ elim (other =ₛ id) [
    | true ↦ reserve_keys keys id locks
    | false ↦ err operation_conflict
  ]
]
