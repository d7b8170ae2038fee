-- ===== src/Tests/Invocation.antt =====
-- The theorems on slots, endpoints, compose plans and retries applied to concrete inputs.
use canton_localnet.Base.{
  ◌+◌, ◌++◌, ◌≡◌, ◌↔◌, ◌⊎◌, refl, Bool, true, false, ℕ, pos, ◌≤◌, suc, Text, lit, List, [], ◌∷◌,
  Has, Distinct, none, some, ok, equal, is_empty, arith, split, cut, cut_prefix, has_prefix,
  trim_space, trim_left_by, trim_right_by, is_space, set_key, lookup_key,
}
use canton_localnet.Base.Files.{Stat, dir}
use canton_localnet.Slot.{parse, all, a_validator, sv_canonical}
use canton_localnet.Slot.Names.{Names, parse_iff}
use canton_localnet.Slot.EnvFile.{
  Content, content, no_file, read_env_file, read_lines, read_line, assign, scan_lines,
  drop_last_empty, last_value, strip_inline_comment, strip_comment_after, strip_paired_quotes,
  unsnoc, lookup_key-read_env_file,
}
use canton_localnet.Slot.Resolve.{
  slot_key, with_oauth2, with_auth, env_or, auth_key, compose_env_of, load_compose_env,
  optional_file, EnvLookup, Endpoints, resolve, base_endpoints,
}
use canton_localnet.Slot.Resolve.Blank.{set_only, resolve-set_only}
use canton_localnet.Slot.Resolve.Ci.{
  resolve_ci, resolve_ci_lem, resolve_ci-first_of, ci_key, ci_user, with_ci_user, ci_in_range,
  ci_number, ci_user_count,
}
use canton_localnet.Compose.{
  Options, Plan, default_options, normalize_enabled_slots, parse_auth_mode,
}
use canton_localnet.Compose.Args.{build, plan_args, plan_env, check_modules}
use canton_localnet.Compose.Slots.{normalize_enabled_slots_lem}
use canton_localnet.Compose.Teardown.{build-Within, Within, torn, flag_values}
use canton_localnet.Config.{Validator}
use canton_localnet.AuthCommand.{override}
use canton_localnet.AuthCommand.Precedence.{override_lem}
use canton_localnet.Slot.Resolve.Layers.{first_of, given, not_empty}
use canton_localnet.Wallet.{Answer, Ending, run, request_never_processed, budget_of}
use canton_localnet.Wallet.Budget.{run-Ends}

parse_iff_example :
    (parse (lit " A_Validator_1") ≡ ok a_validator)
    ↔ (Has a_validator all × Names (lit " A_Validator_1") a_validator)
parse_iff_example = parse_iff (lit " A_Validator_1") a_validator

abbrev env_text : Text
env_text = lit "# users\nA=1\n B = 'x y' # note\nA=2\n"

abbrev env_entries : List (Text × Text)
env_entries = (lit "A", lit "2") ∷ (lit "B", lit "x y") ∷ []

file_read : read_env_file (content env_text) ≡ ok env_entries
unfolding read_env_file read_lines read_line assign scan_lines drop_last_empty split cut cut_prefix
    has_prefix trim_space trim_left_by trim_right_by is_space set_key equal strip_inline_comment
    strip_comment_after strip_paired_quotes unsnoc lit
file_read = refl

lookup_key-read_env_file_example :
    lookup_key (lit "A") env_entries ≡ last_value (lit "A") (scan_lines env_text)
lookup_key-read_env_file_example =
    lookup_key-read_env_file env_text (lit "A") {m = env_entries} file_read

abbrev no_files : Text → Content
no_files path = no_file

abbrev blank_env : EnvLookup
blank_env key = some (lit "  ")

resolve-set_only_example :
    resolve no_files a_validator (lit "/repo") (set_only blank_env)
    ≡ resolve no_files a_validator (lit "/repo") blank_env
resolve-set_only_example = resolve-set_only no_files a_validator (lit "/repo") blank_env

abbrev empty_env : EnvLookup
empty_env key = none

abbrev a_endpoints : Endpoints
a_endpoints = base_endpoints a_validator empty_env

abbrev ci_2 : Endpoints
ci_2 = with_ci_user empty_env [] 2 a_endpoints

ci_2_resolved : resolve_ci no_files a_endpoints [] (pos 2) empty_env ≡ ok ci_2
unfolding resolve_ci base_endpoints a_validator ci_in_range ci_number equal lit
ci_2_resolved = refl

resolve_ci_lem_example :
    (a_endpoints.slot.canonical ≡ lit "a-validator-1")
    × ((k : ℕ) × (pos 2 ≡ pos k) × (1 ≤ k) × (k ≤ ci_user_count))
    × (ci_2 ≡ record a_endpoints {
      client_id = ci_2.client_id;
      client_secret = ci_2.client_secret;
      validator_user_id = ci_2.validator_user_id;
    })
resolve_ci_lem_example =
    resolve_ci_lem no_files a_endpoints [] (pos 2) empty_env {new = ci_2} ci_2_resolved

-- A compose file that names another client for the second CI slot.
abbrev ci_file : Text → Content
ci_file path = content (lit "AUTH_A_VALIDATOR_1_CI_2_CLIENT_ID=other\n")

abbrev ci_entries : List (Text × Text)
ci_entries = (lit "AUTH_A_VALIDATOR_1_CI_2_CLIENT_ID", lit "other") ∷ []

ci_file_loaded : load_compose_env ci_file (lit "/repo") a_endpoints.slot ≡ ok ci_entries
unfolding load_compose_env optional_file read_env_file read_lines read_line assign scan_lines
    drop_last_empty split cut cut_prefix has_prefix trim_space trim_left_by trim_right_by is_space
    set_key equal strip_inline_comment strip_comment_after strip_paired_quotes unsnoc lit
ci_file_loaded = refl

ci_resolved :
    resolve_ci ci_file a_endpoints (lit "/repo") (pos 2) empty_env
    ≡ ok (with_ci_user empty_env ci_entries 2 a_endpoints)
unfolding resolve_ci base_endpoints a_validator ci_in_range ci_number load_compose_env optional_file
    read_env_file read_lines read_line assign scan_lines drop_last_empty split cut cut_prefix
    has_prefix trim_space trim_left_by trim_right_by is_space set_key equal strip_inline_comment
    strip_comment_after strip_paired_quotes unsnoc lit
ci_resolved = refl

resolve_ci-first_of_example :
    ((with_ci_user empty_env ci_entries 2 a_endpoints).client_id
      ≡ first_of
          (given (empty_env (slot_key a_endpoints.slot (lit "_CLIENT_ID")))
            ∷ given (lookup_key (ci_key a_endpoints 2 (lit "_CLIENT_ID")) ci_entries)
            ∷ [])
          (lit "a-validator-1-ci-" ++ ((48 + 2) ∷ [])))
    × ((with_ci_user empty_env ci_entries 2 a_endpoints).client_secret
        ≡ first_of
            (given (empty_env (slot_key a_endpoints.slot (lit "_CLIENT_SECRET")))
              ∷ given (lookup_key (ci_key a_endpoints 2 (lit "_CLIENT_SECRET")) ci_entries)
              ∷ [])
            (ci_user 2).client_secret)
    × ((with_ci_user empty_env ci_entries 2 a_endpoints).validator_user_id
        ≡ first_of
            (given (empty_env (slot_key a_endpoints.slot (lit "_VALIDATOR_USER_ID")))
              ∷ given (lookup_key (ci_key a_endpoints 2 (lit "_USER_ID")) ci_entries)
              ∷ [])
            (ci_user 2).user_id)
resolve_ci-first_of_example =
    resolve_ci-first_of ci_file a_endpoints (lit "/repo") 2 empty_env ci_entries
      {new = with_ci_user empty_env ci_entries 2 a_endpoints} (unfold lit in refl) ci_file_loaded
      ci_resolved

normalize_enabled_slots_lem_example :
    Distinct (normalize_enabled_slots (lit "a-validator-1" ∷ [] ∷ lit "a-validator-1" ∷ []))
    × (Has
          (lit "a-validator-1")
          (normalize_enabled_slots (lit "a-validator-1" ∷ [] ∷ lit "a-validator-1" ∷ []))
        ↔ ((lit "a-validator-1" ≡ sv_canonical)
            ⊎ (Has (lit "a-validator-1") (lit "a-validator-1" ∷ [] ∷ lit "a-validator-1" ∷ [])
                × (is_empty (lit "a-validator-1") ≡ false))))
normalize_enabled_slots_lem_example =
    normalize_enabled_slots_lem (lit "a-validator-1" ∷ [] ∷ lit "a-validator-1" ∷ [])
      (lit "a-validator-1")

abbrev up_options : Options
up_options = record (default_options (lit "linux") (lit "/repo")) { pqs = true }

abbrev every_dir : Text → Stat
every_dir path = dir

abbrev up_plan : Plan
up_plan = record { args = plan_args up_options; env = plan_env up_options }

planned : build every_dir (lit "linux") up_options ≡ ok up_plan
unfolding build default_options check_modules parse_auth_mode lit
planned = refl

build-Within_example :
    (down : Plan) × (build every_dir (lit "linux") (torn up_options) ≡ ok down)
    × Within (flag_values (lit "-f") up_plan.args) (flag_values (lit "-f") down.args)
    × Within (flag_values (lit "--profile") up_plan.args) (flag_values (lit "--profile") down.args)
build-Within_example = build-Within every_dir (lit "linux") up_options {up = up_plan} planned

abbrev too_many : ℕ → Answer
too_many n = record { status = 429; retry_after = 20000000000; call_error = none }

abbrev never_cut : ℕ → Bool
never_cut n = false

run-Ends_example :
    (end : Ending) × (total : ℕ) × (run request_never_processed too_many never_cut 0
        (suc (budget_of 0))
      ≡ some (end, total))
    × (total ≤ budget_of 0)
run-Ends_example =
    run-Ends request_never_processed too_many never_cut 0 (omega arith) (λ n. omega arith)

abbrev a_resolved : Endpoints
a_resolved = record (with_oauth2 a_validator empty_env [] (base_endpoints a_validator empty_env)) {
  party_hint = env_or empty_env (slot_key a_validator (lit "_PARTY_HINT")) a_validator.canonical;
}

abbrev yaml_validator : Validator
yaml_validator = record {
  enabled = true;
  party_hint = lit "hint";
  auth = record { client_id = []; client_secret = lit "s3cret" };
  parties = [];
}

a_is_resolved : resolve no_files a_validator (lit "/repo") empty_env ≡ ok a_resolved
unfolding resolve compose_env_of load_compose_env optional_file read_env_file with_auth a_validator
    lit
a_is_resolved = refl

override_lem_example :
    ((override empty_env a_validator yaml_validator a_resolved).party_hint
      ≡ first_of
          (given (empty_env (slot_key a_validator (lit "_PARTY_HINT")))
            ∷ not_empty yaml_validator.party_hint
            ∷ [])
          a_validator.canonical)
    × ((override empty_env a_validator yaml_validator a_resolved).client_id
        ≡ first_of
            (given (empty_env (slot_key a_validator (lit "_CLIENT_ID")))
              ∷ not_empty yaml_validator.auth.client_id
              ∷ given (lookup_key (auth_key a_validator (lit "_VALIDATOR_CLIENT_ID")) [])
              ∷ [])
            (a_validator.canonical ++ lit "-validator"))
    × ((override empty_env a_validator yaml_validator a_resolved).client_secret
        ≡ first_of
            (given (empty_env (slot_key a_validator (lit "_CLIENT_SECRET")))
              ∷ not_empty yaml_validator.auth.client_secret
              ∷ given (lookup_key (auth_key a_validator (lit "_VALIDATOR_CLIENT_SECRET")) [])
              ∷ [])
            [])
override_lem_example =
    override_lem no_files a_validator (lit "/repo") empty_env yaml_validator [] {ep = a_resolved}
      (unfold a_validator in refl)
      (unfold compose_env_of load_compose_env optional_file read_env_file a_validator lit in refl)
      a_is_resolved
