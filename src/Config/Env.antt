-- ===== src/Config/Env.antt =====
-- `Env` and `EnabledSlots`: what a configuration hands to the compose pipeline.
use canton_localnet.Base.{
  Bool, false, ◌||◌, not, Text, lit, List, [], ◌∷◌, ◌++◌, none, some, map, if◌then◌else◌, is_empty,
  equal, less, sort_by, lookup_key, set_key, keys, replace_char, filter,
}
use canton_localnet.Slot.{canonicals, sv_canonical, to_upper}
use canton_localnet.Config.{Config, Validator}

abbrev pub Pairs : Type 0
Pairs = List (Text × Text)

unfoldable pub profile_flag : Bool → Text
unfolding lit
profile_flag on = if on then lit "on" else lit "off"

unfoldable pub slot_env_prefix : Text → Text
unfolding to_upper replace_char
slot_env_prefix slot_name = replace_char b'-' (b'_' ∷ []) (to_upper slot_name)

-- `if value != "" { pairs[key] = value }`
unfoldable pub set_non_empty : Text → Text → Pairs → Pairs
unfolding set_key
set_non_empty key value pairs = if not (is_empty value) then set_key key value pairs else pairs

unfoldable pub slot_enabled : Text → Validator → Bool
unfolding equal
slot_enabled slot_name v = v.enabled || equal slot_name sv_canonical

-- The body of the loop over the validators.
unfoldable pub slot_pairs : Text → Validator → Pairs → Pairs
slot_pairs slot_name v pairs =
    let prefix = slot_env_prefix slot_name in
    set_non_empty (prefix ++ lit "_OAUTH_CLIENT_SECRET") v.auth.client_secret (
      set_non_empty (prefix ++ lit "_OAUTH_CLIENT_ID") v.auth.client_id (
        set_non_empty (prefix ++ lit "_PARTY_HINT") v.party_hint
          (set_key (prefix ++ lit "_PROFILE") (profile_flag (slot_enabled slot_name v)) pairs)))

unfoldable pub all_pairs : List (Text × Validator) → Pairs → Pairs
all_pairs [] pairs = pairs
all_pairs ((slot_name, v) ∷ validators) pairs = all_pairs validators (slot_pairs slot_name v pairs)

unfoldable pub env_pairs : Config → Pairs
env_pairs c = all_pairs c.validators (
    (lit "OBS_PROFILE", profile_flag c.modules.obs)
    ∷ (lit "PQS_PROFILE", profile_flag c.modules.pqs)
    ∷ [])

-- `pairs[k]`
unfoldable pub value_of : Pairs → Text → Text
unfolding lookup_key
value_of pairs k = elim (lookup_key k pairs) [ none ↦ [] | some v ↦ v ]

unfoldable pub env : Config → List Text
env c = map (λ k. k ++ (b'=' ∷ value_of (env_pairs c) k)) (sort_by less (keys (env_pairs c)))

-- The test of the loop in `EnabledSlots`.
unfoldable pub is_enabled : List (Text × Validator) → Text → Bool
unfolding lookup_key
is_enabled validators name = elim (lookup_key name validators) [
  | none ↦ false
  | some v ↦ equal name sv_canonical || v.enabled
]

unfoldable pub enabled_slots : Config → List Text
unfolding filter
enabled_slots c = filter (is_enabled c.validators) canonicals
