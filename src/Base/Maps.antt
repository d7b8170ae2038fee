-- ===== src/Base/Maps.antt =====
-- A Go map with string keys, as a list of entries: no key twice, in some order of iteration.
use mathlib.Core.Path.{◌≡◌, refl, sym, subst}
use mathlib.Core.Option.{Option, none, some}
use mathlib.Core.List.{List, [], ◌∷◌}
use mathlib.Core.Logic.{inl, inr}
use native.Mathlib.Omega.{arith}
use canton_localnet.Base.Nat.{if◌then◌else◌, Bool-cases}
use canton_localnet.Base.Lists.{Has, All, none_in}
use canton_localnet.Base.Strings.{Text, equal, equal_iff}

module _ {ℓ} {V : Type ℓ} where
  unfoldable pub lookup_key : Text → List (Text × V) → Option V
  lookup_key k [] = none
  lookup_key k ((j, v) ∷ m) = if equal j k then some v else lookup_key k m

  -- `m[k] = v`
  unfoldable pub set_key : Text → V → List (Text × V) → List (Text × V)
  set_key k v [] = (k, v) ∷ []
  set_key k v ((j, w) ∷ m) = if equal j k then (j, v) ∷ m else (j, w) ∷ set_key k v m

  abbrev pub keys : List (Text × V) → List Text
  keys [] = []
  keys ((k, v) ∷ m) = k ∷ keys m

  pub lookup_key-set_key :
      (j k : Text) (v : V) (m : List (Text × V))
      → lookup_key j (set_key k v m) ≡ (if equal k j then some v else lookup_key j m)
  unfolding lookup_key set_key
  lookup_key-set_key j k v [] = refl
  lookup_key-set_key j k v ((i, w) ∷ m) =
      ground (arith, equal_iff k j, equal_iff i k, equal_iff i j, lookup_key-set_key j k v m)

  pub keys-set_key :
      (k : Text) (v : V) (m : List (Text × V)) → Has k (keys m) → keys (set_key k v m) ≡ keys m
  unfolding set_key
  keys-set_key k v [] h = absurd (none_in h)
  keys-set_key k v ((j, w) ∷ m) (inl e) = ground (arith, equal_iff j k)
  keys-set_key k v ((j, w) ∷ m) (inr h) = ground (arith, keys-set_key k v m h)

  pub All-set_key {κ} :
      (P : Text × V → Type κ) (k : Text) (v : V) (m : List (Text × V))
      → P (k, v)
      → All P m
      → All P (set_key k v m)
  unfolding set_key
  All-set_key P k v [] p h = (p, tt)
  All-set_key P k v ((j, w) ∷ m) p h = elim (Bool-cases (equal j k)) [
    | inl e ↦ rw e (subst (λ i. P (i, v)) (sym ((equal_iff j k).0 e)) p, h.1)
    | inr n ↦ rw n (h.0, All-set_key P k v m p h.1)
  ]

  pub Has-lookup_key :
      (k : Text) (m : List (Text × V)) → Has k (keys m) → (v : V) × (lookup_key k m ≡ some v)
  unfolding lookup_key
  Has-lookup_key k [] h = absurd (none_in h)
  Has-lookup_key k ((j, w) ∷ m) h = elim (Bool-cases (equal j k)) [
    | inl e ↦ (w, rw e)
    | inr n ↦ elim h [
      | inl same ↦ absurd (ground (arith, equal_iff j k))
      | inr later ↦ rw n (Has-lookup_key k m later)
    ]
  ]

  pub All-lookup_key {κ} :
      (P : Text × V → Type κ) (k : Text) (m : List (Text × V)) {v : V}
      → All P m
      → lookup_key k m ≡ some v
      → P (k, v)
  unfolding lookup_key
  All-lookup_key P k [] h e = absurd (ground arith)
  All-lookup_key P k ((j, w) ∷ m) {v} h e = elim (Bool-cases (equal j k)) [
    | inl q ↦
        let same : w ≡ v = ground arith in
        subst (λ x. P (k, x)) same (subst (λ i. P (i, w)) ((equal_iff j k).0 q) h.0)
    | inr n ↦ All-lookup_key P k m h.1 (rw n at e)
  ]
