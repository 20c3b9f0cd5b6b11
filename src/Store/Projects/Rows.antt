-- ===== src/Store/Projects/Rows.antt =====
-- store/managed.go and store/configuration.go: what a lookup finds after an upsert or a deletion.

use nox_yard.Prelude.{
  ◌=ₛ◌, if◌then◌else◌, select, String, ◌≡◌, refl, false, not, none, some, List, [], ◌∷◌, arith,
  eq_iff,
}
use nox_yard.Store.Projects.{
  ManagedProject, FileConfiguration, find_project, find_configuration, upsert_project, merged,
  upsert_configuration, is_ready,
}

pub find_project-upsert :
    (name : String) (p : ManagedProject) (ps : List ManagedProject)
    → find_project name (upsert_project p ps)
      ≡ (if p.name =ₛ name then some p else find_project name ps)
unfolding find_project upsert_project
find_project-upsert name p [] = refl
find_project-upsert name p (q ∷ qs) = ground (
  arith,
  find_project-upsert name p qs,
  eq_iff q.name p.name,
  eq_iff q.name name,
  eq_iff p.name name,
)

pub find_configuration-upsert :
    (name : String) (c : FileConfiguration) (cs : List FileConfiguration)
    → is_ready (find_configuration name (upsert_configuration c cs))
      ≡ (if c.name =ₛ name then c.state =ₛ "ready" else is_ready (find_configuration name cs))
unfolding find_configuration upsert_configuration merged is_ready
find_configuration-upsert name c [] = ground arith
find_configuration-upsert name c (d ∷ ds) = ground (
  arith,
  find_configuration-upsert name c ds,
  eq_iff d.name c.name,
  eq_iff d.name name,
  eq_iff c.name name,
)

pub find_project-deleted_other :
    (name other : String) (ps : List ManagedProject)
    → (other =ₛ name) ≡ false
    → find_project name (select (λ p. not (p.name =ₛ other)) ps) ≡ find_project name ps
unfolding find_project
find_project-deleted_other name other [] n = refl
find_project-deleted_other name other (p ∷ ps) n =
    ground (arith, find_project-deleted_other name other ps n, eq_iff p.name other)

pub find_configuration-deleted_other :
    (name other : String) (cs : List FileConfiguration)
    → (other =ₛ name) ≡ false
    → find_configuration name (select (λ c. not (c.name =ₛ other)) cs) ≡ find_configuration name cs
unfolding find_configuration
find_configuration-deleted_other name other [] n = refl
find_configuration-deleted_other name other (c ∷ cs) n =
    ground (arith, find_configuration-deleted_other name other cs n, eq_iff c.name other)

pub find_project-deleted :
    (name : String) (ps : List ManagedProject)
    → find_project name (select (λ p. not (p.name =ₛ name)) ps) ≡ none
unfolding find_project
find_project-deleted name [] = refl
find_project-deleted name (p ∷ ps) = ground (arith, find_project-deleted name ps)

pub find_configuration-deleted :
    (name : String) (cs : List FileConfiguration)
    → find_configuration name (select (λ c. not (c.name =ₛ name)) cs) ≡ none
unfolding find_configuration
find_configuration-deleted name [] = refl
find_configuration-deleted name (c ∷ cs) = ground (arith, find_configuration-deleted name cs)
