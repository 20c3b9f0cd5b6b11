-- ===== src/Store/Keys/Claiming.antt =====
-- What claiming and reserving keys does to the lock table.
use nox_yard.Prelude.{
  if◌then◌else◌, Option-cases, mem, ok, String, ◌≡◌, inl, inr, true, none, some, List, [], ◌∷◌,
  arith, eq_iff,
}
use nox_yard.Store.Types.{Lock}
use nox_yard.Store.Tables.{lock_holder}
use nox_yard.Store.Tables.Locks.{UniqueLocks}
use nox_yard.Store.Keys.{claim_keys, reserve_keys}

-- A claim succeeds only on free keys, and gives them to the job.
pub record Claimed (keys : List String) (id : String) (before after : List Lock) : Type 0 where
  pub unique : UniqueLocks after
  pub free : (r : String) → mem r keys ≡ true → lock_holder r before ≡ none
  pub given :
      (r : String) → lock_holder r after ≡ (if mem r keys then some id else lock_holder r before)

pub claim_keys-Claimed :
    (keys : List String) (id : String) (locks : List Lock) {after : List Lock}
    → UniqueLocks locks
    → claim_keys keys id locks ≡ ok after
    → Claimed keys id locks after
unfolding claim_keys lock_holder
claim_keys-Claimed [] id locks u h = record {
  unique = ground arith;
  free = λ r m. cc;
  given = λ r. ground arith;
}
claim_keys-Claimed (k ∷ ks) id locks {after} u h = elim (Option-cases (lock_holder k locks)) [
  | inl e ↦
      let c : Claimed ks id (record { resource = k; holder = id } ∷ locks) after =
        claim_keys-Claimed ks id (record { resource = k; holder = id } ∷ locks) (e, u)
          (ground arith) in
      record {
        unique = c.unique;
        free = λ r m. ground (arith, c.free r, eq_iff k r);
        given = λ r. ground (arith, c.given r, eq_iff k r);
      }
  | inr (o, e) ↦ absurd (ground arith)
]

-- A reservation keeps what the job holds already.
pub record Reserved (keys : List String) (id : String) (before after : List Lock) : Type 0 where
  pub unique : UniqueLocks after
  pub free : (r h : String) → mem r keys ≡ true → lock_holder r before ≡ some h → h ≡ id
  pub given :
      (r : String) → lock_holder r after ≡ (if mem r keys then some id else lock_holder r before)

pub reserve_keys-Reserved :
    (keys : List String) (id : String) (locks : List Lock) {after : List Lock}
    → UniqueLocks locks
    → reserve_keys keys id locks ≡ ok after
    → Reserved keys id locks after
unfolding reserve_keys lock_holder
reserve_keys-Reserved [] id locks u h = record {
  unique = ground arith;
  free = λ r o m. cc;
  given = λ r. ground arith;
}
reserve_keys-Reserved (k ∷ ks) id locks {after} u h = elim (Option-cases (lock_holder k locks)) [
  | inl e ↦
      let c : Reserved ks id (record { resource = k; holder = id } ∷ locks) after =
        reserve_keys-Reserved ks id (record { resource = k; holder = id } ∷ locks) (e, u)
          (ground arith) in
      record {
        unique = c.unique;
        free = λ r o m p. ground (arith, c.free r o, eq_iff k r);
        given = λ r. ground (arith, c.given r, eq_iff k r);
      }
  | inr (o, e) ↦
      let same : o ≡ id = ground (arith, eq_iff o id) in
      let c : Reserved ks id locks after =
        reserve_keys-Reserved ks id locks u (ground (arith, eq_iff o id)) in
      record {
        unique = c.unique;
        free = λ r q m p. ground (arith, c.free r q, eq_iff k r);
        given = λ r. ground (arith, c.given r, eq_iff k r);
      }
]
