-- ===== src/Config/Layers.antt =====
-- The layers of an accepted configuration: what `Parse` takes from the document and what from the defaults.
use canton_localnet.Base.{
  ◌≡◌, refl, sym, ap, subst, ◌∙◌, not, Text, List, [], ◌∷◌, Option, none, some, ok, ◌⊎◌, ◌&&◌, true,
  false, lit, arith, has_prefix, has_suffix, trim_prefix, trim_suffix, >>=-eq_ok, ok-injective,
  guard, equal, is_empty, lookup_key, keys, Distinct,
}
use canton_localnet.Config.{
  Auth, Modules, Party, Config, Validator, RawAuth, RawModules, RawConfig, RawValidator, defaults,
  schema_version,
}
use canton_localnet.Config.Merge.{
  check_known, merge_validator, validator_or_zero, merge_all, merge_auth, merge_parties,
  merge_secret, merge_modules, resolve_secret, referenced, check_parties, or_keep, disables,
  sv_disabled, parse,
}
use canton_localnet.Slot.{sv_canonical}
use canton_localnet.Config.Stored.{Stored, merge_all-Stored}

-- A value of the document, if it has one, over the default.
abbrev pub Chosen {ℓ} : {A : Type ℓ} → Option A → A → A → Type ℓ
Chosen none default value = value ≡ default
Chosen (some given) default value = value ≡ given

-- A secret: `${NAME}` stands for the variable of this name, and any other text for itself.
abbrev pub Secret : (Text → Option Text) → Option Text → Text → Text → Type 0
Secret lookup none default value = value ≡ default
Secret lookup (some given) default value =
    ((value ≡ given) × (has_prefix given (lit "${") && has_suffix given (lit "}") ≡ false))
    ⊎ ((has_prefix given (lit "${") ≡ true)
        × (has_suffix given (lit "}") ≡ true)
        × (lookup (trim_suffix (trim_prefix given (lit "${")) (lit "}")) ≡ some value))

abbrev pub Credentials : (Text → Option Text) → Option RawAuth → Auth → Auth → Type 0
Credentials lookup none default value = value ≡ default
Credentials lookup (some given) default value =
    Chosen given.client_id default.client_id value.client_id
    × Secret lookup given.client_secret default.client_secret value.client_secret

abbrev pub Merged : (Text → Option Text) → Option RawValidator → Validator → Validator → Type 0
Merged lookup none default value = value ≡ default
Merged lookup (some given) default value =
    Chosen given.enabled default.enabled value.enabled
    × Chosen given.party_hint default.party_hint value.party_hint
    × Credentials lookup given.auth default.auth value.auth
    × Chosen given.parties default.parties value.parties

abbrev pub Features : Option RawModules → Modules → Modules → Type 0
Features none default value = value ≡ default
Features (some given) default value =
    Chosen given.obs default.obs value.obs × Chosen given.pqs default.pqs value.pqs

-- The default of a name: a validator without content if there is none.
abbrev pub default_of : Option Validator → Validator
default_of (some v) = v
default_of none = record {
  enabled = false;
  party_hint = [];
  auth = record { client_id = []; client_secret = [] };
  parties = [];
}

-- What the configuration holds for a name, from the document's entry and the default.
abbrev pub Layered :
    (Text → Option Text)
    → Option (Option RawValidator)
    → Option Validator
    → Option Validator
    → Type 0
Layered lookup none default out = out ≡ default
Layered lookup (some given) default out =
    (v : Validator) × (out ≡ some v) × Merged lookup given (default_of default) v

or_keep-Chosen {ℓ} : {A : Type ℓ} (o : Option A) (d : A) → Chosen o d (or_keep o d)
unfolding or_keep
or_keep-Chosen none d = refl
or_keep-Chosen (some a) d = refl

resolve_secret-Secret :
    (lookup : Text → Option Text) (slot_name given default value : Text)
    → resolve_secret lookup slot_name given ≡ ok value
    → Secret lookup (some given) default value
unfolding resolve_secret referenced
resolve_secret-Secret lookup slot_name given default value h = ground arith

merge_secret-Secret :
    (lookup : Text → Option Text) (slot_name : Text) (o : Option Text) (default value : Text)
    → merge_secret lookup slot_name o default ≡ ok value
    → Secret lookup o default value
unfolding merge_secret
merge_secret-Secret lookup slot_name none default value h = sym (ok-injective default value h)
merge_secret-Secret lookup slot_name (some given) default value h =
    resolve_secret-Secret lookup slot_name given default value h

merge_auth-Credentials :
    (lookup : Text → Option Text) (slot_name : Text) (o : Option RawAuth) (default value : Auth)
    → merge_auth lookup slot_name o default ≡ ok value
    → Credentials lookup o default value
unfolding merge_auth
merge_auth-Credentials lookup slot_name none default value h = sym (ok-injective default value h)
merge_auth-Credentials lookup slot_name (some given) default value h =
    let (secret, m, r) =
      >>=-eq_ok (merge_secret lookup slot_name given.client_secret default.client_secret) _
        {b = value} h in
    subst (Credentials lookup (some given) default) (ok-injective _ value r) (
      or_keep-Chosen given.client_id default.client_id,
      merge_secret-Secret lookup slot_name given.client_secret default.client_secret secret m,
    )

check_parties-same :
    (slot_name : Text) (parties out : List Party)
    → check_parties slot_name parties ≡ ok out
    → out ≡ parties
unfolding check_parties
check_parties-same slot_name [] out h = sym (ok-injective [] out h)
check_parties-same slot_name (p ∷ parties) out h =
    let (_, _, h1) = >>=-eq_ok (guard (not (is_empty p.name)) _) _ {b = out} h in
    let (rest, c, h2) = >>=-eq_ok (check_parties slot_name parties) _ {b = out} h1 in
    sym (ok-injective (p ∷ rest) out h2)
    ∙ ap (λ x. p ∷ x) (check_parties-same slot_name parties rest c)

merge_parties-Chosen :
    (slot_name : Text) (o : Option (List Party)) (default value : List Party)
    → merge_parties slot_name o default ≡ ok value
    → Chosen o default value
unfolding merge_parties
merge_parties-Chosen slot_name none default value h = sym (ok-injective default value h)
merge_parties-Chosen slot_name (some given) default value h =
    check_parties-same slot_name given value h

merge_validator-Merged :
    (lookup : Text → Option Text) (slot_name : Text) (o : Option RawValidator)
    (default value : Validator)
    → merge_validator lookup slot_name o default ≡ ok value
    → Merged lookup o default value
unfolding merge_validator
merge_validator-Merged lookup slot_name none default value h = sym (ok-injective default value h)
merge_validator-Merged lookup slot_name (some given) default value h =
    let (_, _, h1) =
      >>=-eq_ok (guard (not (equal slot_name sv_canonical && disables given.enabled)) sv_disabled) _
        {b = value} h in
    let (auth, a, h2) =
      >>=-eq_ok (merge_auth lookup slot_name given.auth default.auth) _ {b = value} h1 in
    let (parties, p, h3) =
      >>=-eq_ok (merge_parties slot_name given.parties default.parties) _ {b = value} h2 in
    subst (Merged lookup (some given) default) (ok-injective _ value h3) (
      or_keep-Chosen given.enabled default.enabled,
      or_keep-Chosen given.party_hint default.party_hint,
      merge_auth-Credentials lookup slot_name given.auth default.auth auth a,
      merge_parties-Chosen slot_name given.parties default.parties parties p,
    )

default_of_lem : (o : Option Validator) → validator_or_zero o ≡ default_of o
unfolding validator_or_zero
default_of_lem none = refl
default_of_lem (some v) = refl

Stored-Layered :
    (lookup : Text → Option Text) (name : Text) (o : Option (Option RawValidator))
    (default out : Option Validator)
    → Stored lookup name o default out
    → Layered lookup o default out
Stored-Layered lookup name none default out h = h
Stored-Layered lookup name (some given) default out (v, m, e) = (
  v,
  e,
  merge_validator-Merged lookup name given (default_of default) v
      (rw (default_of_lem default) at m),
)

merge_modules-Features :
    (o : Option RawModules) (default : Modules) → Features o default (merge_modules o default)
unfolding merge_modules
merge_modules-Features none default = refl
merge_modules-Features (some given) default =
    (or_keep-Chosen given.obs default.obs, or_keep-Chosen given.pqs default.pqs)

-- In an accepted configuration whose document names no slot twice, each module, `multiSync`, and for
-- every name each field of its validator is the document's, if the document has it, and the
-- default's if not; a secret that reads `${NAME}` is the value of this variable. A name that the
-- document does not mention has its default. So the outcome does not depend on the order of the
-- entries.
pub parse-Layered :
    (lookup : Text → Option Text) (raw : RawConfig) (cfg : Config) (name : Text)
    → Distinct (keys raw.validators)
    → parse lookup raw ≡ ok cfg
    → Features raw.modules defaults.modules cfg.modules
      × Chosen raw.multi_sync defaults.multi_sync cfg.multi_sync
      × Layered lookup
          (lookup_key name raw.validators)
          (lookup_key name defaults.validators)
          (lookup_key name cfg.validators)
unfolding parse
parse-Layered lookup raw cfg name d h =
    let (_, _, h1) = >>=-eq_ok (guard (not (is_empty raw.version)) _) _ h in
    let (_, _, h2) = >>=-eq_ok (guard (equal raw.version schema_version) _) _ h1 in
    let (_, _, h3) = >>=-eq_ok (check_known raw.validators) _ h2 in
    let (vs, merged, h4) = >>=-eq_ok (merge_all lookup raw.validators defaults.validators) _ h3 in
    subst
      (λ (c : Config).
        Features raw.modules defaults.modules c.modules
        × Chosen raw.multi_sync defaults.multi_sync c.multi_sync
        × Layered lookup (lookup_key name raw.validators) (lookup_key name defaults.validators)
            (lookup_key name c.validators))
      (ok-injective _ cfg h4)
      (
        merge_modules-Features raw.modules defaults.modules,
        or_keep-Chosen raw.multi_sync defaults.multi_sync,
        Stored-Layered lookup name (lookup_key name raw.validators)
            (lookup_key name defaults.validators) (lookup_key name vs)
            (merge_all-Stored lookup raw.validators defaults.validators vs name d merged),
      )
