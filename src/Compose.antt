-- ===== src/Compose.antt =====
-- The docker compose invocation: cli/internal/compose/compose.go. Running it is left out.
pub mod Slots
pub mod Args
pub mod Teardown
use canton_localnet.Base.{
  Bool, true, false, not, ◌&&◌, ◌||◌, Text, lit, List, [], ◌∷◌, ◌++◌, Result, ok, err, ◌>>=◌, ◌>>◌,
  guard, map, any, filter, equal, is_empty, if◌then◌else◌,
}
use canton_localnet.Base.Files.{Stat, dir, file, missing, failed, join_path}
use canton_localnet.Slot.{Slot, canonicals, pqs_slots, pqs_default_slots, sv_canonical, env_prefix}

-- `AuthMode`: a string type with two values in use; `unknown` is any further non-empty string.
pub data AuthMode : Type 0 where
  unset oauth2 secret : AuthMode
  unknown : Text → AuthMode

pub record Options : Type 0 where
  pub repo_root : Text
  pub auth_mode : AuthMode
  pub no_resource : Bool
  pub obs : Bool
  pub pqs : Bool
  pub teardown : Bool
  pub multi_sync : Bool
  pub host_os : Text
  pub extra_env : List Text
  pub enabled_slots : List Text

pub record Plan : Type 0 where
  pub args : List Text
  pub env : List Text

pub data BuildError : Type 0 where
  no_repo_root : BuildError
  modules_not_found : BuildError
  not_a_directory : BuildError
  invalid_auth_mode : Text → BuildError

unfoldable pub parse_auth_mode : AuthMode → Result BuildError AuthMode
parse_auth_mode unset = ok oauth2
parse_auth_mode oauth2 = ok oauth2
parse_auth_mode secret = ok secret
parse_auth_mode (unknown s) = err (invalid_auth_mode s)

-- `string(opts.AuthMode)`
unfoldable pub auth_mode_text : AuthMode → Text
unfolding lit
auth_mode_text unset = []
auth_mode_text oauth2 = lit "oauth2"
auth_mode_text secret = lit "secret"
auth_mode_text (unknown s) = s

abbrev pub is_oauth2 : AuthMode → Bool
is_oauth2 oauth2 = true
is_oauth2 _ = false

-- `DefaultOptions`, on the operating system of the host.
unfoldable pub default_options : Text → Text → Options
default_options host_os repo_root = record {
  repo_root = repo_root;
  auth_mode = oauth2;
  no_resource = false;
  obs = false;
  pqs = false;
  teardown = false;
  multi_sync = false;
  host_os = host_os;
  extra_env = [];
  enabled_slots = canonicals;
}

unfoldable pub contains_slot : List Text → Text → Bool
unfolding any
contains_slot slots target = any (λ s. equal s target) slots

-- The loop of `normalizeEnabledSlots`; `seen` are the names kept so far.
unfoldable pub dedup : List Text → List Text → List Text
unfolding contains_slot
dedup seen [] = []
dedup seen (name ∷ names) =
    let skipped = dedup seen names in
    let kept = name ∷ dedup (name ∷ seen) names in
    if is_empty name then skipped else if contains_slot seen name then skipped else kept

unfoldable pub normalize_enabled_slots : List Text → List Text
unfolding dedup
normalize_enabled_slots slots =
    if contains_slot (dedup [] slots) sv_canonical
    then dedup [] slots
    else sv_canonical ∷ dedup [] slots

unfoldable pub pqs_profiles : List Slot → List Text
unfolding lit
pqs_profiles slots = map (λ s. lit "pqs-" ++ s.canonical) slots

unfoldable pub enabled_pqs_default_slots : List Text → List Slot
unfolding filter
enabled_pqs_default_slots slots = filter (λ s. contains_slot slots s.canonical) pqs_default_slots

unfoldable pub pqs_profile_toggles : List Text → List Text
unfolding lit
pqs_profile_toggles slots =
    map
      (λ s.
        lit "PQS_"
        ++ (env_prefix s
            ++ (lit "_PROFILE="
                ++ (if s.pqs_by_default && contains_slot slots s.canonical
                    then lit "on"
                    else lit "off"))))
      pqs_slots

-- `append(args, flag, value)` for each value.
unfoldable pub flagged : Text → List Text → List Text
flagged flag [] = []
flagged flag (value ∷ values) = flag ∷ value ∷ flagged flag values

abbrev pub when : Bool → List Text → List Text
when b xs = if b then xs else []
