-- ===== src/Config/Valid.antt =====
-- The invariant of a parsed configuration: `Parse` in cli/internal/yamlconfig/yamlconfig.go.
use canton_localnet.Base.{
  ◌≡◌, refl, sym, ap, subst, ◌∙◌, inl, inr, true, false, not, ◌&&◌, Text, List, [], ◌∷◌, Option,
  none, some, ok, >>=-eq_ok, guard-eq_ok, ok-injective, guard, any-Has, equal, equal_iff, is_empty,
  lookup_key, set_key, keys, keys-set_key, All-set_key, Has-lookup_key, All-lookup_key, All, Has,
  arith, Bool-cases,
}
use canton_localnet.Slot.{canonicals, sv_canonical}
use canton_localnet.Config.{
  Config, Validator, Party, RawConfig, RawValidator, defaults, schema_version,
}
use canton_localnet.Config.Merge.{
  check_known, is_known_slot, merge_validator, merge_auth, merge_parties, check_parties,
  validator_or_zero, merge_all, parse, disables, sv_disabled, or_keep,
}

-- The Super Validator is enabled, and every party has a name.
abbrev pub IsGood : Text × Validator → Type 0
IsGood e =
    (e.0 ≡ sv_canonical → e.1.enabled ≡ true) × All (λ p. is_empty p.name ≡ false) e.1.parties

abbrev Named : List Party → Type 0
Named parties = All (λ p. is_empty p.name ≡ false) parties

check_parties-Named :
    (slot_name : Text) (parties : List Party) (out : List Party)
    → check_parties slot_name parties ≡ ok out
    → Named out
unfolding check_parties
check_parties-Named slot_name [] out h = subst Named (ok-injective [] out h) tt
check_parties-Named slot_name (p ∷ parties) out h =
    let (_, g, h') = >>=-eq_ok (guard (not (is_empty p.name)) _) _ h in
    let (rest, r, e) = >>=-eq_ok (check_parties slot_name parties) _ h' in
    let named : is_empty p.name ≡ false = ground (arith, guard-eq_ok (not (is_empty p.name)) _ g) in
    subst Named (ok-injective (p ∷ rest) out e)
      (named, check_parties-Named slot_name parties rest r)

merge_parties-Named :
    (slot_name : Text) (raw : Option (List Party)) (base out : List Party)
    → Named base
    → merge_parties slot_name raw base ≡ ok out
    → Named out
unfolding merge_parties
merge_parties-Named slot_name none base out n h = subst Named (ok-injective base out h) n
merge_parties-Named slot_name (some parties) base out n h =
    check_parties-Named slot_name parties out h

merge_validator-IsGood :
    (lookup : Text → Option Text) (name : Text) (rv : Option RawValidator) (base out : Validator)
    → IsGood (name, base)
    → merge_validator lookup name rv base ≡ ok out
    → IsGood (name, out)
unfolding merge_validator
merge_validator-IsGood lookup name none base out g h =
    subst (λ v. IsGood (name, v)) (ok-injective base out h) g
merge_validator-IsGood lookup name (some rv) base out g h =
    let (_, allowed, h1) = >>=-eq_ok (guard _ sv_disabled) _ h in
    let (auth, _, h2) = >>=-eq_ok (merge_auth lookup name rv.auth base.auth) _ h1 in
    let (parties, q, h3) = >>=-eq_ok (merge_parties name rv.parties base.parties) _ h2 in
    let ne =
      guard-eq_ok (not (equal name sv_canonical && disables rv.enabled)) sv_disabled allowed in
    subst (λ v. IsGood (name, v)) (ok-injective _ out h3)
      (
        λ is_sv. unfold or_keep in ground (arith, equal_iff name sv_canonical, g.0 is_sv),
        merge_parties-Named name rv.parties base.parties parties g.1 q,
      )

-- Every slot of the table has an entry, in the order of the table, and every entry is good.
abbrev pub IsValidMap : List (Text × Validator) → Type 0
IsValidMap validators = (keys validators ≡ canonicals) × All IsGood validators

defaults-IsValidMap : IsValidMap defaults.validators
unfolding defaults canonicals
defaults-IsValidMap = (
  refl,
  ((λ _. refl, tt), ((λ _. refl, tt), ((λ _. refl, tt), ((λ _. refl, tt), ((λ _. refl, tt), tt))))),
)

check_known-cons :
    (name : Text) (rv : Option RawValidator) (entries : List (Text × Option RawValidator))
    → check_known ((name, rv) ∷ entries) ≡ ok tt
    → Has name canonicals × (check_known entries ≡ ok tt)
unfolding check_known
check_known-cons name rv entries h = elim (Bool-cases (is_known_slot name)) [
  | inl k ↦ (known k, ground arith)
  | inr u ↦ absurd (ground arith)
]
  where
    known : is_known_slot name ≡ true → Has name canonicals
    known k =
        let (s, m, e) = any-Has (λ s. equal s name) canonicals k in
        subst (λ t. Has t canonicals) ((equal_iff s name).0 e) m

merge_all-IsValidMap :
    (lookup : Text → Option Text) (entries : List (Text × Option RawValidator))
    (vs out : List (Text × Validator))
    → check_known entries ≡ ok tt
    → IsValidMap vs
    → merge_all lookup entries vs ≡ ok out
    → IsValidMap out
unfolding merge_all validator_or_zero
merge_all-IsValidMap lookup [] vs out k v h = subst IsValidMap (ok-injective vs out h) v
merge_all-IsValidMap lookup ((name, rv) ∷ entries) vs out k v h =
    let (known, k') = check_known-cons name rv entries k in
    let in_keys : Has name (keys vs) = subst (Has name) (sym v.0) known in
    let (base, found) = Has-lookup_key name vs in_keys in
    let (merged, m, h') =
      >>=-eq_ok (merge_validator lookup name rv (validator_or_zero (lookup_key name vs))) _ h in
    let good : IsGood (name, merged) =
      merge_validator-IsGood lookup name rv base merged (All-lookup_key IsGood name vs v.1 found)
        (subst (λ o. merge_validator lookup name rv (validator_or_zero o) ≡ ok merged) found m) in
    merge_all-IsValidMap lookup entries (set_key name merged vs) out k'
      (keys-set_key name merged vs in_keys ∙ v.0, All-set_key IsGood name merged vs good v.1) h'

-- A configuration that `Parse` accepts has exactly one entry for each slot of the table, its Super
-- Validator is enabled, every party in it has a name, and it has the supported schema version.
pub parse-IsValidMap :
    (lookup : Text → Option Text) (raw : RawConfig) (cfg : Config)
    → parse lookup raw ≡ ok cfg
    → IsValidMap cfg.validators × (cfg.version ≡ schema_version) × (raw.version ≡ schema_version)
unfolding parse
parse-IsValidMap lookup raw cfg h =
    let (_, _, h1) = >>=-eq_ok (guard (not (is_empty raw.version)) _) _ h in
    let (_, supported, h2) = >>=-eq_ok (guard (equal raw.version schema_version) _) _ h1 in
    let (u, known, h3) = >>=-eq_ok (check_known raw.validators) _ h2 in
    let (vs, merged, h4) = >>=-eq_ok (merge_all lookup raw.validators defaults.validators) _ h3 in
    let e = ok-injective _ cfg h4 in
    (
      subst (λ (c : Config). IsValidMap c.validators) e
          (merge_all-IsValidMap lookup raw.validators defaults.validators vs known
            defaults-IsValidMap merged),
      sym (ap (λ (c : Config). c.version) e) ∙ (unfold defaults in refl),
      (equal_iff raw.version schema_version).0 (guard-eq_ok _ _ supported),
    )
