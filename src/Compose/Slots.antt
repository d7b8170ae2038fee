-- ===== src/Compose/Slots.antt =====
-- Which slots an invocation turns on: `normalizeEnabledSlots` in cli/internal/compose/compose.go.
use canton_localnet.Base.{
  ◌≡◌, refl, sym, subst, ◌⊎◌, inl, inr, ◌↔◌, true, false, Text, List, [], ◌∷◌, arith, any, Has,
  Has-any, any-Has, Distinct, none_in, Bool-cases, equal, equal_iff, is_empty, ◌||◌,
}
use canton_localnet.Slot.{sv_canonical}
use canton_localnet.Compose.{contains_slot, dedup, normalize_enabled_slots}

pub contains_slot_iff :
    (slots : List Text) (t : Text) → (contains_slot slots t ≡ true) ↔ Has t slots
contains_slot_iff slots t = (
  λ h.
      unfold contains_slot in
      let (x, m, e) = any-Has (λ s. equal s t) slots h in
      subst (λ y. Has y slots) ((equal_iff x t).0 e) m,
  λ m. unfold contains_slot in Has-any (λ s. equal s t) slots t m ((equal_iff t t).1 refl),
)

contains_slot-cons :
    (s t : Text) (slots : List Text)
    → contains_slot (s ∷ slots) t ≡ (equal s t || contains_slot slots t)
unfolding contains_slot any
contains_slot-cons s t slots = ground arith

-- A name in front of the deduplicated rest.
dedup-cases :
    (seen : List Text) (s : Text) (slots : List Text)
    → ((is_empty s ≡ true) × (dedup seen (s ∷ slots) ≡ dedup seen slots))
      ⊎ (((is_empty s ≡ false)
            × (contains_slot seen s ≡ true)
            × (dedup seen (s ∷ slots) ≡ dedup seen slots))
          ⊎ ((is_empty s ≡ false)
              × (contains_slot seen s ≡ false)
              × (dedup seen (s ∷ slots) ≡ s ∷ dedup (s ∷ seen) slots)))
dedup-cases seen s slots = elim (Bool-cases (is_empty s)) [
  | inl e ↦ inl (e, unfold dedup in rw e refl)
  | inr n ↦ elim (Bool-cases (contains_slot seen s)) [
    | inl t ↦ inr (inl (n, t, unfold dedup in rw (n, t) refl))
    | inr f ↦ inr (inr (n, f, unfold dedup in rw (n, f) refl))
  ]
]

-- The name is not empty and none of those seen.
abbrev Fresh : List Text → Text → Type 0
Fresh seen name = (is_empty name ≡ false) × (contains_slot seen name ≡ false)

Fresh-cons :
    (seen : List Text) (s name : Text)
    → Fresh (s ∷ seen) name ↔ ((equal s name ≡ false) × Fresh seen name)
Fresh-cons seen s name = (
  λ h. ground (arith, h, contains_slot-cons s name seen),
  λ h. ground (arith, h, contains_slot-cons s name seen),
)

skip :
    (seen slots : List Text) (s name : Text)
    → Has name (dedup seen slots) ↔ (Has name slots × Fresh seen name)
    → (Fresh seen s → ⊥)
    → Has name (dedup seen slots) ↔ (Has name (s ∷ slots) × Fresh seen name)
skip seen slots s name rest stale = (
  λ h. let (m, f) = rest.0 h in (inr m, f),
  λ (m, f). elim m [
    | inl e ↦ absurd (stale (subst (Fresh seen) e f))
    | inr later ↦ rest.1 (later, f)
  ],
)

keep :
    (seen slots : List Text) (s name : Text)
    → Has name (dedup (s ∷ seen) slots) ↔ (Has name slots × Fresh (s ∷ seen) name)
    → Fresh seen s
    → Has name (s ∷ dedup (s ∷ seen) slots) ↔ (Has name (s ∷ slots) × Fresh seen name)
keep seen slots s name rest fresh = (
  λ h. elim h [
    | inl e ↦ (inl e, subst (Fresh seen) (sym e) fresh)
    | inr later ↦ let (m, f) = rest.0 later in (inr m, ((Fresh-cons seen s name).0 f).1)
  ],
  λ (m, f). elim (Bool-cases (equal s name)) [
    | inl same ↦ inl (sym ((equal_iff s name).0 same))
    | inr other ↦ elim m [
      | inl e ↦ inl e
      | inr later ↦ inr (rest.1 (later, (Fresh-cons seen s name).1 (other, f)))
    ]
  ],
)

Has-dedup :
    (seen slots : List Text) (name : Text)
    → Has name (dedup seen slots) ↔ (Has name slots × Fresh seen name)
Has-dedup seen [] name = unfold dedup in (λ h. absurd (none_in h), λ h. absurd (none_in h.0))
Has-dedup seen (s ∷ slots) name = elim (dedup-cases seen s slots) [
  | inl (e, q) ↦
      rw q (skip seen slots s name (Has-dedup seen slots name) (λ f. ground (arith, e, f.0)))
  | inr (inl (n, t, q)) ↦
      rw q (skip seen slots s name (Has-dedup seen slots name) (λ f. ground (arith, t, f.1)))
  | inr (inr (n, f, q)) ↦ rw q (keep seen slots s name (Has-dedup (s ∷ seen) slots name) (n, f))
]

dedup-Distinct : (seen slots : List Text) → Distinct (dedup seen slots)
dedup-Distinct seen [] = unfold dedup in tt
dedup-Distinct seen (s ∷ slots) = elim (dedup-cases seen s slots) [
  | inl (e, q) ↦ rw q (dedup-Distinct seen slots)
  | inr (inl (n, t, q)) ↦ rw q (dedup-Distinct seen slots)
  | inr (inr (n, f, q)) ↦ rw q (λ m. absurd (once m), dedup-Distinct (s ∷ seen) slots)
]
  where
    once : Has s (dedup (s ∷ seen) slots) → ⊥
    once m =
        let f = ((Has-dedup (s ∷ seen) slots s).0 m).1 in
        ground (arith, ((Fresh-cons seen s s).0 f).0, (equal_iff s s).1 refl)

normalize-cases :
    (slots : List Text)
    → ((contains_slot (dedup [] slots) sv_canonical ≡ true)
        × (normalize_enabled_slots slots ≡ dedup [] slots))
      ⊎ ((contains_slot (dedup [] slots) sv_canonical ≡ false)
          × (normalize_enabled_slots slots ≡ sv_canonical ∷ dedup [] slots))
normalize-cases slots = elim (Bool-cases (contains_slot (dedup [] slots) sv_canonical)) [
  | inl t ↦ inl (t, unfold normalize_enabled_slots in rw t refl)
  | inr f ↦ inr (f, unfold normalize_enabled_slots in rw f refl)
]

-- Names not seen before, when none has been.
Has-dedup_nil :
    (slots : List Text) (name : Text)
    → Has name (dedup [] slots) ↔ (Has name slots × (is_empty name ≡ false))
Has-dedup_nil slots name = (
  λ h. let (m, f) = (Has-dedup [] slots name).0 h in (m, f.0),
  λ (m, n). (Has-dedup [] slots name).1 (m, (n, unfold contains_slot any in refl)),
)

-- The slots an invocation turns on stand there once each, and a name is one of them exactly if
-- it is the super validator's or a name of the option that is not empty.
pub normalize_enabled_slots_lem :
    (slots : List Text) (name : Text)
    → Distinct (normalize_enabled_slots slots)
      × (Has name (normalize_enabled_slots slots)
          ↔ ((name ≡ sv_canonical) ⊎ (Has name slots × (is_empty name ≡ false))))
normalize_enabled_slots_lem slots name = elim (normalize-cases slots) [
  | inl (t, q) ↦
      let sv = (contains_slot_iff (dedup [] slots) sv_canonical).0 t in
      rw q (
        dedup-Distinct [] slots,
        (
          λ h. inr ((Has-dedup_nil slots name).0 h),
          λ h. elim h [
            | inl e ↦ subst (λ n. Has n (dedup [] slots)) (sym e) sv
            | inr m ↦ (Has-dedup_nil slots name).1 m
          ],
        ),
      )
  | inr (f, q) ↦ rw q (
    (
      λ m. absurd (ground (arith, f, (contains_slot_iff (dedup [] slots) sv_canonical).1 m)),
      dedup-Distinct [] slots,
    ),
    (
      λ h. elim h [ inl e ↦ inl e | inr m ↦ inr ((Has-dedup_nil slots name).0 m) ],
      λ h. elim h [ inl e ↦ inl e | inr m ↦ inr ((Has-dedup_nil slots name).1 m) ],
    ),
  )
]
