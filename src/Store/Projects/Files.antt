-- ===== src/Store/Projects/Files.antt =====
-- store/managed.go: once a project's files are verified, its sources stay out of the database.

use nox_yard.Prelude.{◌=ₛ◌, String, Bool, true, ◌||◌, not, List, [], ◌∷◌}
use nox_yard.Store.Projects.{
  ManagedProject, FileConfiguration, Projects, set_file_configuration, save_managed_project,
  delete_managed_project,
}

-- A later write to the two tables.
pub data Write : Type 0 where
  saves : ManagedProject → Write
  deletes : String → Write
  sets : FileConfiguration → Write

unfoldable pub written : Write → Projects → Projects
unfolding save_managed_project delete_managed_project set_file_configuration
written (saves q) t = save_managed_project q t
written (deletes name) t = delete_managed_project name t
written (sets c) t = set_file_configuration c t

-- It does not delete the project, and does not set its files to another state.
unfoldable pub leaves_files : String → Write → Bool
leaves_files name (saves q) = true
leaves_files name (deletes other) = not (other =ₛ name)
leaves_files name (sets c) = not (c.name =ₛ name) || c.state =ₛ "ready"

unfoldable pub write_all : List Write → Projects → Projects
unfolding written
write_all [] t = t
write_all (x ∷ xs) t = write_all xs (written x t)
