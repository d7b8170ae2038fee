-- ===== src/Tests/Configuration.antt =====
-- A configuration document with two validators, and the theorems on `Parse` applied to it.
use canton_localnet.Base.{
  String, no_repeat, no_repeat-Distinct, ◌≡◌, ◌↔◌, refl, inl, inr, true, false, Text, lit, List, [],
  ◌∷◌, ◌++◌, Has, Distinct, Option, none, some, ok, any, equal, has_prefix, has_suffix, cut_suffix,
  trim_prefix, trim_suffix, cut_prefix, lookup_key, set_key, keys,
}
use canton_localnet.Base.Files.{Stat, missing, dir}
use canton_localnet.Slot.{canonicals, all, sv_canonical}
use canton_localnet.Config.{
  Config, Validator, RawConfig, RawValidator, schema_version, defaults, default_validator,
}
use canton_localnet.Config.Merge.{
  parse, merge_all, merge_validator, merge_auth, merge_parties, merge_secret, resolve_secret,
  referenced, check_parties, or_keep, check_known, is_known_slot, merge_modules, validator_or_zero,
}
use canton_localnet.Config.Valid.{IsValidMap, parse-IsValidMap}
use canton_localnet.Config.Layers.{Chosen, Features, Layered, parse-Layered}
use canton_localnet.Config.Env.{env, enabled_slots}
use canton_localnet.Config.Profiles.{env-enabled_slots, profile_key}
use canton_localnet.Config.Discover.{find_root, root_text, root_candidate}
use canton_localnet.Config.Discover.Nearest.{Bare, find_root_iff}

abbrev raw_b : RawValidator
raw_b = record {
  enabled = some false;
  party_hint = none;
  auth = some (record { client_id = none; client_secret = some (lit "${SECRET}") });
  parties = some (record { name = lit "alice"; primary = true } ∷ []);
}

abbrev raw_config : RawConfig
raw_config = record {
  version = lit "preview-1";
  modules = some (record { obs = some false; pqs = none });
  multi_sync = none;
  validators = (lit "a-validator-1", none) ∷ (lit "b-validator-1", some raw_b) ∷ [];
}

abbrev lookup_env : Text → Option Text
lookup_env name = some (lit "s3cret")

abbrev plain : String → Text × Validator
plain name = (
  lit name,
  record {
    enabled = true;
    party_hint = lit name;
    auth = record { client_id = []; client_secret = [] };
    parties = [];
  },
)

abbrev merged_config : Config
merged_config = record {
  version = lit "preview-1";
  modules = record { obs = false; pqs = true };
  multi_sync = false;
  validators =
      plain "sv-validator-1"
      ∷ plain "a-validator-1"
      ∷ (
        lit "b-validator-1",
        record {
          enabled = false;
          party_hint = lit "b-validator-1";
          auth = record { client_id = []; client_secret = lit "s3cret" };
          parties = record { name = lit "alice"; primary = true } ∷ [];
        },
      )
      ∷ plain "c-validator-1"
      ∷ plain "d-validator-1"
      ∷ [];
}

accepted : parse lookup_env raw_config ≡ ok merged_config
unfolding parse merge_all merge_validator merge_auth merge_parties merge_secret resolve_secret
    referenced check_parties or_keep check_known is_known_slot merge_modules validator_or_zero
    schema_version defaults default_validator canonicals all sv_canonical any equal has_prefix
    has_suffix cut_suffix cut_prefix trim_prefix trim_suffix lookup_key set_key lit
accepted = refl

parse-IsValidMap_example :
    IsValidMap merged_config.validators
    × (merged_config.version ≡ schema_version)
    × (raw_config.version ≡ schema_version)
parse-IsValidMap_example = parse-IsValidMap lookup_env raw_config merged_config accepted

named_once : Distinct (keys raw_config.validators)
unfolding no_repeat any equal lit
named_once = no_repeat-Distinct (keys raw_config.validators) refl

parse-Layered_example :
    Features raw_config.modules defaults.modules merged_config.modules
    × Chosen raw_config.multi_sync defaults.multi_sync merged_config.multi_sync
    × Layered lookup_env
        (lookup_key (lit "b-validator-1") raw_config.validators)
        (lookup_key (lit "b-validator-1") defaults.validators)
        (lookup_key (lit "b-validator-1") merged_config.validators)
parse-Layered_example =
    parse-Layered lookup_env raw_config merged_config (lit "b-validator-1") named_once accepted

known : Has (lit "b-validator-1") canonicals
unfolding canonicals all lit
known = inr (inr (inl refl))

env-enabled_slots_example :
    (Has (lit "b-validator-1") (enabled_slots merged_config)
      → Has (profile_key (lit "b-validator-1") ++ (b'=' ∷ lit "on")) (env merged_config))
    × (¬ Has (lit "b-validator-1") (enabled_slots merged_config)
        → Has (profile_key (lit "b-validator-1") ++ (b'=' ∷ lit "off")) (env merged_config))
env-enabled_slots_example =
    env-enabled_slots lookup_env raw_config merged_config (lit "b-validator-1") accepted known

abbrev start_names : List Text
start_names = lit "cli" ∷ lit "repo" ∷ []

abbrev absolute_path : Text → Option (List Text)
absolute_path t = some start_names

abbrev repo_stat : Text → Stat
repo_stat t = elim (equal t (lit "/repo/compose/modules")) [ true ↦ dir | false ↦ missing ]

find_root_iff_example : (find_root absolute_path repo_stat [] ≡ ok (lit "/repo")) ↔ (
    (d : List Text) × (below : List Text) × (absolute_path [] ≡ some (below ++ d))
    × (lit "/repo" ≡ root_text d)
    × (repo_stat (root_candidate d) ≡ dir)
    × Bare repo_stat d below)
find_root_iff_example = find_root_iff absolute_path repo_stat [] (lit "/repo")
