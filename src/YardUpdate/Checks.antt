-- ===== src/YardUpdate/Checks.antt =====
-- selfupdate/worker.go and manager.go: the checks of Yard's container before it is replaced, and the
-- options of its replacement.
use nox_yard.YardUpdate.{Mount, Endpoint, Config, HostConfig, State, Container, Replacement}
use nox_yard.Store.SelfUpdate.{SelfUpdateJob}
use nox_yard.Prelude.{
  ◌==◌, ◌=ₛ◌, if◌then◌else◌, is_some, length, ◌++ₛ◌, has_prefix, trim_prefix, Labels, label,
  contains, is_hex, Result, err, ok, ◌>>=◌, ◌>>◌, guard, String, len, Bool, false, ◌&&◌, ◌||◌, not,
  Option, none, some, List, [], ◌∷◌,
}

-- yardrelease.ValidDigest
unfoldable pub is_valid_digest : String → Bool
is_valid_digest value =
    has_prefix value "sha256:" && len value == 71 && is_hex (trim_prefix value "sha256:")

unfoldable pub is_running : Option State → Bool
is_running none = false
is_running (some s) = s.running

unfoldable pub label_of : String → Option Config → String
label_of key none = ""
label_of key (some c) = label key c.labels

-- validateWorkerContainer
unfoldable pub validate_worker_container :
    SelfUpdateJob → String → Container → Result String (Unit {0})
unfolding is_running label_of
validate_worker_container job id old =
    guard
      (old.id =ₛ id
        && old.image =ₛ job.old_image_id
        && is_running old.state
        && is_some old.config
        && is_some old.host
        && label_of "com.docker.compose.service" old.config =ₛ "nox-yard")
      "original Yard container changed before update worker started"

-- hasExpectedHealthcheck
unfoldable pub has_expected_healthcheck : Option (List String) → Bool
has_expected_healthcheck (some (shell ∷ command ∷ [])) =
    shell =ₛ "CMD-SHELL" && contains command "http://127.0.0.1:8080/healthz"
has_expected_healthcheck other = false

-- requiredMounts, for one destination and for both.
unfoldable pub required_mount : String → List Mount → Result String String
required_mount destination [] =
    err ("self-update requires a writable " ++ₛ destination ++ₛ " bind mount")
required_mount destination (m ∷ ms) =
    let rest = required_mount destination ms in
    if not (m.destination =ₛ destination) || not m.writable || not m.is_bind
    then rest
    else if m.source =ₛ ""
    then err ("self-update mount " ++ₛ destination ++ₛ " has no source")
    else ok m.source

unfoldable pub required_mounts : List Mount → Result String (List (String × String))
unfolding required_mount
required_mounts ms = do
  data_source ← required_mount "/data" ms
  docker_source ← required_mount "/var/run/docker.sock" ms
  ok ((data_source, "/data") ∷ (docker_source, "/var/run/docker.sock") ∷ [])

-- An assignment to a key of a Go map.
unfoldable pub set_label : String → String → Labels → Labels
set_label key value [] = (key, value) ∷ []
set_label key value ((k, v) ∷ rest) =
    let others = set_label key value rest in
    if k =ₛ key then (key, value) ∷ rest else (k, v) ∷ others

-- The endpoint without what Docker assigns.
unfoldable pub carried : Endpoint → Endpoint
carried e = record e { assigned = "" }

unfoldable pub carried_networks :
    List (String × Option Endpoint) → Result String (List (String × Endpoint))
unfolding carried
carried_networks [] = ok []
carried_networks ((name, none) ∷ rest) = err "original Docker network settings are missing"
carried_networks ((name, some e) ∷ rest) = do
  others ← carried_networks rest
  ok ((name, carried e) ∷ others)

unfoldable pub replaced_config : String → Config → Config
unfolding set_label
replaced_config image c = record c {
  image = image;
  hostname = "";
  labels = set_label "com.docker.compose.image" image c.labels;
}

-- replacementConfig
unfoldable pub configured :
    Container
    → String
    → Config
    → HostConfig
    → List (String × Option Endpoint)
    → Result String Replacement
unfolding has_expected_healthcheck required_mounts carried_networks replaced_config
configured old image config host networks = do
  guard (has_expected_healthcheck config.health_test)
      "original container has no /healthz healthcheck"
  required_mounts old.mounts >>= λ _.
      guard (length networks == 1) "self-update requires exactly one Docker network"
  networking ← carried_networks networks
  ok (record {
    config = replaced_config image config;
    host = record host { auto_remove = false };
    networking = networking;
  })

abbrev pub incomplete : String
incomplete = "original container configuration is incomplete"

unfoldable pub replacement_config : Container → String → Result String Replacement
unfolding is_valid_digest configured
replacement_config old image = complete old.config old.host old.networks
  where
    complete :
        Option Config
        → Option HostConfig
        → Option (List (String × Option Endpoint))
        → Result String Replacement
    complete none h n = err incomplete
    complete (some c) none n = err incomplete
    complete (some c) (some h) none = err incomplete
    complete (some c) (some h) (some n) =
        if is_valid_digest image then configured old image c h n else err incomplete
