-- ===== src/Compose/Args.antt =====
-- `Build`: the arguments and the environment.
use canton_localnet.Base.{
  Bool, not, ◌&&◌, ◌||◌, Text, String, lit, List, [], ◌∷◌, ◌++◌, Result, ok, err, ◌>>=◌, ◌>>◌,
  guard, equal, is_empty, if◌then◌else◌,
}
use canton_localnet.Base.Files.{Stat, dir, file, missing, failed, join_path}
use canton_localnet.Slot.{pqs_slots}
use canton_localnet.Compose.{
  Options, Plan, BuildError, no_repo_root, modules_not_found, not_a_directory, parse_auth_mode,
  auth_mode_text, is_oauth2, normalize_enabled_slots, pqs_profiles, enabled_pqs_default_slots,
  pqs_profile_toggles, flagged, when,
}

unfoldable pub compose_dir : Options → Text
unfolding lit join_path
compose_dir o = join_path o.repo_root (lit "compose")

unfoldable pub modules_dir : Options → Text
unfolding lit join_path
modules_dir o = join_path (compose_dir o) (lit "modules")

-- A file of one module, such as `filepath.Join(localnetDir, "compose.yaml")`.
unfoldable pub module_file : Options → String → String → Text
unfolding lit join_path
module_file o name part = join_path (join_path (modules_dir o) (lit name)) (lit part)

abbrev loads_pqs : Options → Bool
loads_pqs o = o.pqs || o.teardown

-- The values of `-f`.
unfoldable pub compose_files : Options → List Text
unfolding lit equal
compose_files o =
    module_file o "localnet" "compose.yaml"
      ∷ module_file o "splice-onboarding" "compose.yaml"
      ∷ when (not o.no_resource) (
          module_file o "localnet" "resource-constraints.yaml"
          ∷ module_file o "splice-onboarding" "resource-constraints.yaml"
          ∷ [])
    ++ (when (is_oauth2 o.auth_mode) (
          module_file o "keycloak" "compose.yaml"
          ∷ when (not o.no_resource) (module_file o "keycloak" "resource-constraints.yaml" ∷ []))
        ++ (when (loads_pqs o) (
              module_file o "pqs" "compose.yaml"
              ∷ when (not o.no_resource) (module_file o "pqs" "resource-constraints.yaml" ∷ []))
            ++ when o.obs (
                module_file o "observability" "compose.yaml"
                ∷ module_file o "observability" "observability.yaml"
                ∷ (if equal o.host_os (lit "darwin")
                    then module_file o "observability" "cadvisor-darwin.yaml"
                    else module_file o "observability" "cadvisor-linux.yaml")
                ∷ when o.pqs (module_file o "pqs" "observability.yaml" ∷ []))))

-- The values of `--env-file`.
unfoldable pub env_files : Options → List Text
unfolding lit join_path
env_files o =
    join_path (compose_dir o) (lit ".env.defaults")
      ∷ module_file o "localnet" "compose.env"
      ∷ module_file o "localnet" "env/common.env"
      ∷ when (is_oauth2 o.auth_mode) (module_file o "keycloak" "compose.env" ∷ [])
    ++ (when (loads_pqs o) (module_file o "pqs" "compose.env" ∷ [])
        ++ when o.obs (module_file o "observability" "compose.env" ∷ []))

-- The PQS profiles: all of them for a teardown, and else those of the enabled default slots.
unfoldable pub scribe_profiles : Options → List Text
scribe_profiles o =
    if o.teardown
    then pqs_profiles pqs_slots
    else when o.pqs
        (pqs_profiles (enabled_pqs_default_slots (normalize_enabled_slots o.enabled_slots)))

-- The values of `--profile`.
unfoldable pub profiles : Options → List Text
unfolding lit scribe_profiles
profiles o =
    normalize_enabled_slots o.enabled_slots
    ++ (when (is_oauth2 o.auth_mode) (lit "keycloak" ∷ [])
        ++ (scribe_profiles o
            ++ (when o.obs (lit "observability" ∷ [])
                ++ when o.multi_sync (lit "multi-sync" ∷ []))))

unfoldable pub plan_args : Options → List Text
unfolding lit flagged
plan_args o =
    lit "compose"
    ∷ (flagged (lit "-f") (compose_files o)
        ++ (flagged (lit "--env-file") (env_files o) ++ flagged (lit "--profile") (profiles o)))

unfoldable pub plan_env : Options → List Text
unfolding lit join_path
plan_env o =
    (lit "MODULES_DIR=" ++ modules_dir o)
      ∷ (lit "LOCALNET_DIR=" ++ join_path (modules_dir o) (lit "localnet"))
      ∷ (lit "AUTH_MODE=" ++ auth_mode_text o.auth_mode)
      ∷ when (o.pqs && not o.teardown)
          (pqs_profile_toggles (normalize_enabled_slots o.enabled_slots))
    ++ o.extra_env

-- The checks on what `os.Stat` reports of the modules directory.
unfoldable pub check_modules : Stat → Result BuildError (Unit {0})
check_modules missing = err modules_not_found
check_modules failed = err modules_not_found
check_modules file = err not_a_directory
check_modules dir = ok tt

-- `stat` is the file system, and `host` the operating system that stands in for an empty one.
unfoldable pub build : (Text → Stat) → Text → Options → Result BuildError Plan
unfolding check_modules
build stat host o = do
  guard (not (is_empty o.repo_root)) no_repo_root
  check_modules (stat (modules_dir o))
  auth_mode ← parse_auth_mode o.auth_mode
  let host_os = if is_empty o.host_os then host else o.host_os
  let resolved = record o { auth_mode = auth_mode; host_os = host_os }
  ok (record { args = plan_args resolved; env = plan_env resolved })
