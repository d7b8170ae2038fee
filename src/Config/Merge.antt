-- ===== src/Config/Merge.antt =====
-- `Parse` behind the decoder: the checks and the merge over the defaults.
use canton_localnet.Base.{
  Bool, true, false, not, ◌&&◌, ◌||◌, Text, lit, List, [], ◌∷◌, Option, none, some, Result, ok, err,
  ◌>>=◌, ◌>>◌, guard, any, equal, is_empty, has_prefix, has_suffix, trim_prefix, trim_suffix,
  if◌then◌else◌, lookup_key, set_key,
}
use canton_localnet.Slot.{canonicals, sv_canonical}
use canton_localnet.Config.{
  Config, Validator, Auth, Party, Modules, RawConfig, RawValidator, RawAuth, RawModules, defaults,
  schema_version,
}

pub data ConfigError : Type 0 where
  version_required : ConfigError
  version_unsupported : Text → ConfigError
  unknown_slot : Text → ConfigError
  sv_disabled : ConfigError
  secret_empty : Text → ConfigError
  secret_unset : Text → Text → ConfigError
  party_unnamed : Text → ConfigError

unfoldable pub is_known_slot : Text → Bool
unfolding any
is_known_slot name = any (λ s. equal s name) canonicals

-- The part of `resolveSecret` behind the test for `${NAME}`, over `os.LookupEnv`.
unfoldable pub referenced : (Text → Option Text) → Text → Text → Result ConfigError Text
referenced lookup slot_name name =
    if is_empty name
    then err (secret_empty slot_name)
    else elim (lookup name) [ none ↦ err (secret_unset slot_name name) | some value ↦ ok value ]

unfoldable pub resolve_secret : (Text → Option Text) → Text → Text → Result ConfigError Text
unfolding lit has_prefix has_suffix trim_prefix trim_suffix referenced
resolve_secret lookup slot_name raw =
    if not (has_prefix raw (lit "${")) || not (has_suffix raw (lit "}"))
    then ok raw
    else referenced lookup slot_name (trim_suffix (trim_prefix raw (lit "${")) (lit "}"))

unfoldable pub or_keep {ℓ} : {A : Type ℓ} → Option A → A → A
or_keep none old = old
or_keep (some new) old = new

-- The loop over the parties.
unfoldable pub check_parties : Text → List Party → Result ConfigError (List Party)
check_parties slot_name [] = ok []
check_parties slot_name (p ∷ parties) = do
  guard (not (is_empty p.name)) (party_unnamed slot_name)
  rest ← check_parties slot_name parties
  ok (p ∷ rest)

unfoldable pub merge_secret :
    (Text → Option Text) → Text → Option Text → Text → Result ConfigError Text
unfolding resolve_secret
merge_secret lookup slot_name none old = ok old
merge_secret lookup slot_name (some raw) old = resolve_secret lookup slot_name raw

unfoldable pub merge_auth :
    (Text → Option Text) → Text → Option RawAuth → Auth → Result ConfigError Auth
unfolding merge_secret or_keep
merge_auth lookup slot_name none base = ok base
merge_auth lookup slot_name (some raw) base = do
  secret ← merge_secret lookup slot_name raw.client_secret base.client_secret
  ok (record { client_id = or_keep raw.client_id base.client_id; client_secret = secret })

unfoldable pub merge_parties :
    Text → Option (List Party) → List Party → Result ConfigError (List Party)
unfolding check_parties
merge_parties slot_name none base = ok base
merge_parties slot_name (some parties) base = check_parties slot_name parties

-- `rv.Enabled` asks to disable the slot.
abbrev pub disables : Option Bool → Bool
disables (some false) = true
disables _ = false

unfoldable pub merge_validator :
    (Text → Option Text) → Text → Option RawValidator → Validator → Result ConfigError Validator
unfolding merge_auth merge_parties or_keep
merge_validator lookup slot_name none base = ok base
merge_validator lookup slot_name (some rv) base = do
  guard (not (equal slot_name sv_canonical && disables rv.enabled)) sv_disabled
  auth ← merge_auth lookup slot_name rv.auth base.auth
  parties ← merge_parties slot_name rv.parties base.parties
  ok (record {
    enabled = or_keep rv.enabled base.enabled;
    party_hint = or_keep rv.party_hint base.party_hint;
    auth = auth;
    parties = parties;
  })

unfoldable pub merge_modules : Option RawModules → Modules → Modules
unfolding or_keep
merge_modules none base = base
merge_modules (some raw) base = record {
  obs = or_keep raw.obs base.obs;
  pqs = or_keep raw.pqs base.pqs;
}

-- The first loop over `raw.Validators`.
unfoldable pub check_known : List (Text × Option RawValidator) → Result ConfigError (Unit {0})
unfolding is_known_slot
check_known [] = ok tt
check_known ((name, rv) ∷ entries) =
    let rest = check_known entries in
    if not (is_known_slot name) then err (unknown_slot name) else rest

-- `cfg.Validators[name]`, for a name that passed the check.
unfoldable pub validator_or_zero : Option Validator → Validator
validator_or_zero (some v) = v
validator_or_zero none = record {
  enabled = false;
  party_hint = [];
  auth = record { client_id = []; client_secret = [] };
  parties = [];
}

-- The second loop, which stores each merged validator.
unfoldable pub merge_all :
    (Text → Option Text)
    → List (Text × Option RawValidator)
    → List (Text × Validator)
    → Result ConfigError (List (Text × Validator))
merge_all lookup [] validators = ok validators
merge_all lookup ((name, rv) ∷ entries) validators =
    merge_validator lookup name rv (validator_or_zero (lookup_key name validators)) >>= λ merged.
    merge_all lookup entries (set_key name merged validators)

unfoldable pub parse : (Text → Option Text) → RawConfig → Result ConfigError Config
unfolding merge_modules check_known or_keep
parse lookup raw = do
  guard (not (is_empty raw.version)) version_required
  guard (equal raw.version schema_version) (version_unsupported raw.version)
  check_known raw.validators
  validators ← merge_all lookup raw.validators defaults.validators
  ok (record {
    version = defaults.version;
    modules = merge_modules raw.modules defaults.modules;
    multi_sync = or_keep raw.multi_sync defaults.multi_sync;
    validators = validators;
  })
