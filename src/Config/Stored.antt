-- ===== src/Config/Stored.antt =====
-- What the second loop of `Parse` stores for each slot, in whatever order Go visits the map.
use canton_localnet.Base.{
  ◌≡◌, refl, sym, ap, subst, ◌∙◌, inl, inr, Text, List, [], ◌∷◌, Option, none, some, ok, >>=-eq_ok,
  ok-injective, equal, equal_iff, lookup_key, set_key, keys, lookup_key-set_key, Has, Bool-cases,
  Distinct, none_in, Empty,
}
use canton_localnet.Config.{Validator, RawValidator}
use canton_localnet.Config.Merge.{merge_validator, validator_or_zero, merge_all}

-- The validator that the merge leaves for a name: the base's, or the base's with the raw one over it.
abbrev pub Stored :
    (Text → Option Text)
    → Text
    → Option (Option RawValidator)
    → Option Validator
    → Option Validator
    → Type 0
Stored lookup name none base out = out ≡ base
Stored lookup name (some rv) base out =
    (v : Validator) × (merge_validator lookup name rv (validator_or_zero base) ≡ ok v)
    × (out ≡ some v)

absent :
    (name : Text) (entries : List (Text × Option RawValidator))
    → (Has name (keys entries) → Empty {0})
    → lookup_key name entries ≡ none
unfolding lookup_key
absent name [] n = refl
absent name ((j, rv) ∷ entries) n = elim (Bool-cases (equal j name)) [
  | inl e ↦ absurd (none_in (n (inl (sym ((equal_iff j name).0 e)))))
  | inr f ↦ rw f (absent name entries (λ h. n (inr h)))
]

pub merge_all-Stored :
    (lookup : Text → Option Text) (entries : List (Text × Option RawValidator))
    (vs out : List (Text × Validator)) (name : Text)
    → Distinct (keys entries)
    → merge_all lookup entries vs ≡ ok out
    → Stored lookup name (lookup_key name entries) (lookup_key name vs) (lookup_key name out)
unfolding merge_all lookup_key
merge_all-Stored lookup [] vs out name d h = ap (lookup_key name) (sym (ok-injective vs out h))
merge_all-Stored lookup ((j, rv) ∷ entries) vs out name (fresh, d) h =
    let (merged, m, h') =
      >>=-eq_ok (merge_validator lookup j rv (validator_or_zero (lookup_key j vs))) _ h in
    let ih = merge_all-Stored lookup entries (set_key j merged vs) out name d h' in
    elim (Bool-cases (equal j name)) [
      | inl e ↦ rw e (
          subst
            (λ n.
              (v : Validator) × (merge_validator lookup n rv (validator_or_zero (lookup_key n vs))
                ≡ ok v)
              × (lookup_key n out ≡ some v))
            ((equal_iff j name).0 e)
            (
              merged,
              m,
              stored merged (merge_all-Stored lookup entries (set_key j merged vs) out j d h'),
            ))
      | inr f ↦ rw f (
          subst (λ o. Stored lookup name (lookup_key name entries) o (lookup_key name out))
            (lookup_key-set_key name j merged vs ∙ rw f refl) ih)
    ]
  where
    stored :
        (merged : Validator)
        → Stored lookup j
            (lookup_key j entries)
            (lookup_key j (set_key j merged vs))
            (lookup_key j out)
        → lookup_key j out ≡ some merged
    stored merged l =
        subst (λ o. Stored lookup j o (lookup_key j (set_key j merged vs)) (lookup_key j out))
          (absent j entries fresh) l
        ∙ lookup_key-set_key j j merged vs
        ∙ rw ((equal_iff j j).1 refl) refl
