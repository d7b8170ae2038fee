-- ===== src/Config/Profiles.antt =====
-- `Env` beside `EnabledSlots`: cli/internal/yamlconfig/yamlconfig.go.
use canton_localnet.Base.{
  ◌≡◌, refl, sym, ap, subst, ◌∙◌, inl, inr, ◌⊎◌, Bool, true, false, ◌||◌, not, Text, lit, List, [],
  ◌∷◌, ◌++◌, Option, none, some, map, if◌then◌else◌, equal, equal_iff, less, lookup_key, keys,
  lookup_key-set_key, Has-lookup_key, Has, All, All-Has, none_in, arith, Bool-cases, Distinct,
  Has-filter, ok, Empty, all_true, all_true-All, All-map, no_repeat, no_repeat-Distinct, ◌&&◌,
}
use canton_localnet.Base.Sorting.{Has-sort_by}
use canton_localnet.Slot.{canonicals, sv_canonical}
use canton_localnet.Config.{Config, Validator, RawConfig}
use canton_localnet.Config.Valid.{IsValidMap, parse-IsValidMap}
use canton_localnet.Config.Merge.{parse}
use canton_localnet.Config.Env.{
  Pairs, profile_flag, slot_env_prefix, set_non_empty, slot_enabled, slot_pairs, all_pairs,
  env_pairs, value_of, env, is_enabled, enabled_slots,
}

pub profile_key : Text → Text
profile_key name = slot_env_prefix name ++ lit "_PROFILE"

-- The key is one of the three optional keys of the slot.
optional_key : Text → Text → Bool
optional_key name k =
    equal (slot_env_prefix name ++ lit "_OAUTH_CLIENT_SECRET") k
    || equal (slot_env_prefix name ++ lit "_OAUTH_CLIENT_ID") k
    || equal (slot_env_prefix name ++ lit "_PARTY_HINT") k

lookup-set_non_empty :
    (k key value : Text) (m : Pairs)
    → equal key k ≡ false
    → lookup_key k (set_non_empty key value m) ≡ lookup_key k m
unfolding set_non_empty
lookup-set_non_empty k key value m h = ground (arith, lookup_key-set_key k key value m)

lookup-slot_pairs :
    (k name : Text) (v : Validator) (m : Pairs)
    → optional_key name k ≡ false
    → lookup_key k (slot_pairs name v m) ≡ (
        if equal (profile_key name) k
        then some (profile_flag (slot_enabled name v))
        else lookup_key k m)
unfolding slot_pairs optional_key profile_key
lookup-slot_pairs k name v m h =
    lookup-set_non_empty k (slot_env_prefix name ++ lit "_OAUTH_CLIENT_SECRET") v.auth.client_secret
      _ (ground arith)
    ∙ lookup-set_non_empty k (slot_env_prefix name ++ lit "_OAUTH_CLIENT_ID") v.auth.client_id _
        (ground arith)
    ∙ lookup-set_non_empty k (slot_env_prefix name ++ lit "_PARTY_HINT") v.party_hint _
        (ground arith)
    ∙ lookup_key-set_key k (slot_env_prefix name ++ lit "_PROFILE")
        (profile_flag (slot_enabled name v)) m

-- The other slot's variables do not meet the profile variable of this one.
Apart : Text → Text → Type 0
Apart name other =
    (optional_key other (profile_key name) ≡ false)
    × ((other ≡ name) ⊎ (equal (profile_key other) (profile_key name) ≡ false))

all_pairs-absent :
    (name : Text) (vs : List (Text × Validator)) (m : Pairs)
    → All (Apart name) (keys vs)
    → (Has name (keys vs) → Empty {0})
    → lookup_key (profile_key name) (all_pairs vs m) ≡ lookup_key (profile_key name) m
unfolding all_pairs Apart
all_pairs-absent name [] m h n = refl
all_pairs-absent name ((j, v) ∷ vs) m h n =
    all_pairs-absent name vs (slot_pairs j v m) h.1 (λ x. n (inr x))
    ∙ lookup-slot_pairs (profile_key name) j v m h.0.0
    ∙ elim h.0.1 [ inl same ↦ absurd (none_in (n (inl (sym same)))) | inr differ ↦ rw differ refl ]

all_pairs-here :
    (name : Text) (vs : List (Text × Validator)) (m : Pairs) {v : Validator}
    → All (Apart name) (keys vs)
    → Distinct (keys vs)
    → lookup_key name vs ≡ some v
    → lookup_key (profile_key name) (all_pairs vs m) ≡ some (profile_flag (slot_enabled name v))
unfolding all_pairs lookup_key Apart
all_pairs-here name [] m h d e = absurd (ground arith)
all_pairs-here name ((j, w) ∷ vs) m {v} h (fresh, d) e = elim (Bool-cases (equal j name)) [
  | inl q ↦
      let same : j ≡ name = (equal_iff j name).0 q in
      all_pairs-absent name vs (slot_pairs j w m) h.1
        (λ x. fresh (subst (λ n. Has n (keys vs)) (sym same) x))
      ∙ lookup-slot_pairs (profile_key name) j w m h.0.0
      ∙ rw ((equal_iff (profile_key j) (profile_key name)).1 (ap profile_key same))
          (ground (arith, ap (λ n. slot_enabled n w) same))
  | inr n ↦ all_pairs-here name vs (slot_pairs j w m) h.1 d (rw n at e)
]

canonicals-Distinct : Distinct canonicals
canonicals-Distinct = no_repeat-Distinct canonicals (unfold no_repeat canonicals in refl)

apart : Text → Text → Bool
apart name other =
    not (optional_key other (profile_key name))
    && (equal other name || not (equal (profile_key other) (profile_key name)))

apart-Apart : (name other : Text) → apart name other ≡ true → Apart name other
unfolding apart Apart
apart-Apart name other h = (ground arith, ground (arith, equal_iff other name))

all_apart : all_true (λ name. all_true (apart name) canonicals) canonicals ≡ true
unfolding all_true apart canonicals optional_key profile_key equal lit slot_env_prefix
all_apart = refl

canonicals-Apart : (name : Text) → Has name canonicals → All (Apart name) canonicals
canonicals-Apart name m = All-map (apart-Apart name) canonicals (
    all_true-All (apart name) canonicals (
      All-Has (λ n. all_true (apart n) canonicals ≡ true) canonicals name
        (all_true-All (λ n. all_true (apart n) canonicals) canonicals all_apart) m))

-- The value of the slot's profile variable.
profile_value :
    (c : Config) (name : Text) {v : Validator}
    → IsValidMap c.validators
    → Has name canonicals
    → lookup_key name c.validators ≡ some v
    → lookup_key (profile_key name) (env_pairs c) ≡ some (profile_flag (slot_enabled name v))
unfolding env_pairs
profile_value c name valid m e =
    all_pairs-here name c.validators _
      (subst (All (Apart name)) (sym valid.0) (canonicals-Apart name m))
      (subst Distinct (sym valid.0) canonicals-Distinct) e

Has-keys : (k : Text) (m : Pairs) {v : Text} → lookup_key k m ≡ some v → Has k (keys m)
unfolding lookup_key
Has-keys k [] e = absurd (ground arith)
Has-keys k ((j, w) ∷ m) e = elim (Bool-cases (equal j k)) [
  | inl q ↦ inl (sym ((equal_iff j k).0 q))
  | inr n ↦ inr (Has-keys k m (rw n at e))
]

Has-map : (f : Text → Text) (k : Text) (ks : List Text) → Has k ks → Has (f k) (map f ks)
Has-map f k [] h = h
Has-map f k (j ∷ ks) (inl e) = inl (ap f e)
Has-map f k (j ∷ ks) (inr h) = inr (Has-map f k ks h)

-- A variable of the pipeline is a line of the environment.
Has-env :
    (c : Config) (k : Text) {v : Text}
    → lookup_key k (env_pairs c) ≡ some v
    → Has (k ++ (b'=' ∷ v)) (env c)
unfolding env value_of
Has-env c k {v} e =
    subst (λ (l : Text). Has l (env c))
      (ap (λ o. k ++ (b'=' ∷ (elim o as (λ _. Text) [ none ↦ [] | some x ↦ x ]))) e)
      (Has-map _ k _ ((Has-sort_by less k (keys (env_pairs c))).1 (Has-keys k (env_pairs c) e)))

is_enabled-slot_enabled :
    (vs : List (Text × Validator)) (name : Text) {v : Validator}
    → lookup_key name vs ≡ some v
    → is_enabled vs name ≡ slot_enabled name v
unfolding is_enabled slot_enabled
is_enabled-slot_enabled vs name {v} e =
    ap (λ o. elim o as (λ _. Bool) [ none ↦ false | some w ↦ equal name sv_canonical || w.enabled ])
      e
    ∙ ground arith

-- For a configuration that `Parse` accepted and a slot of the table, the environment handed to the
-- pipeline holds `<SLOT>_PROFILE=on` if `EnabledSlots` lists the slot, and `<SLOT>_PROFILE=off` if not.
pub env-enabled_slots :
    (lookup : Text → Option Text) (raw : RawConfig) (c : Config) (name : Text)
    → parse lookup raw ≡ ok c
    → Has name canonicals
    → (Has name (enabled_slots c) → Has (profile_key name ++ (b'=' ∷ lit "on")) (env c))
      × (¬ Has name (enabled_slots c) → Has (profile_key name ++ (b'=' ∷ lit "off")) (env c))
env-enabled_slots lookup raw c name accepted m = (
  λ h.
      let on : slot_enabled name v ≡ true =
        sym (is_enabled-slot_enabled c.validators name found)
        ∙ ((Has-filter (is_enabled c.validators) canonicals name).0
            (unfold enabled_slots in h)).1 in
      Has-env c (profile_key name) (line true on),
  λ n. elim (Bool-cases (slot_enabled name v)) [
    | inl on ↦ absurd (n (listed on))
    | inr off ↦ Has-env c (profile_key name) (line false off)
  ],
)
  where
    valid : IsValidMap c.validators
    valid = (parse-IsValidMap lookup raw c accepted).0

    v : Validator
    v = (Has-lookup_key name c.validators (subst (Has name) (sym valid.0) m)).0

    found : lookup_key name c.validators ≡ some v
    found = (Has-lookup_key name c.validators (subst (Has name) (sym valid.0) m)).1

    line :
        (b : Bool)
        → slot_enabled name v ≡ b
        → lookup_key (profile_key name) (env_pairs c) ≡ some (if b then lit "on" else lit "off")
    line b e =
        profile_value c name valid m found
        ∙ ap (λ x. some (profile_flag x)) e
        ∙ (unfold profile_flag in refl)

    listed : slot_enabled name v ≡ true → Has name (enabled_slots c)
    listed on =
        unfold enabled_slots in
        (Has-filter (is_enabled c.validators) canonicals name).1
          (m, is_enabled-slot_enabled c.validators name found ∙ on)
