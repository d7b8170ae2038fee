-- ===== src/Rights/Split.antt =====
-- Which rights a prune keeps and which it revokes: `preserves` and `Classify`.
use canton_localnet.Base.{
  ◌+◌, ◌≡◌, ◌≢◌, ◌⊎◌, inl, inr, ◌↔◌, true, false, Bool-cases, equal_iff, has_prefix, List, [], ◌∷◌,
  Has, none_in, length, arith,
}
use canton_localnet.Rights.{
  Right, Policy, preserves, classify, admin_kind, act_as_kind, read_as_kind,
}

-- The contract of a prune: the admin right, and the act-as rights on the preserved party, with
-- the read-as rights on it where the policy asks for them.
abbrev pub Preserved : Policy → Right → Type 0
Preserved p r =
    (r.kind ≡ admin_kind)
    ⊎ ((p.party_prefix ≢ [])
        × (has_prefix r.party p.party_prefix ≡ true)
        × ((r.kind ≡ act_as_kind) ⊎ ((p.preserve_read_as ≡ true) × (r.kind ≡ read_as_kind))))

preserves-Preserved : (p : Policy) (r : Right) → preserves p r ≡ true → Preserved p r
unfolding preserves
preserves-Preserved p r h = ground (
  arith,
  equal_iff r.kind admin_kind,
  equal_iff r.kind act_as_kind,
  equal_iff r.kind read_as_kind,
)

Preserved-preserves : (p : Policy) (r : Right) → Preserved p r → preserves p r ≡ true
unfolding preserves
Preserved-preserves p r h = ground (
  arith,
  equal_iff r.kind admin_kind,
  equal_iff r.kind act_as_kind,
  equal_iff r.kind read_as_kind,
)

Has-keep :
    (r : Right) (held : List Right) (p : Policy)
    → Has r (classify held p).keep
    → Has r held × (preserves p r ≡ true)
unfolding classify
Has-keep r [] p h = absurd (none_in h)
Has-keep r (x ∷ held) p h = elim (Bool-cases (preserves p x)) [
  | inl t ↦ elim (rw t at h) [
    | inl e ↦ (inl e, rw e t)
    | inr m ↦ let (i, q) = Has-keep r held p m in (inr i, q)
  ]
  | inr f ↦ let (i, q) = Has-keep r held p (rw f at h) in (inr i, q)
]

Has-revoke :
    (r : Right) (held : List Right) (p : Policy)
    → Has r (classify held p).revoke
    → Has r held × (preserves p r ≡ false)
unfolding classify
Has-revoke r [] p h = absurd (none_in h)
Has-revoke r (x ∷ held) p h = elim (Bool-cases (preserves p x)) [
  | inr t ↦ elim (rw t at h) [
    | inl e ↦ (inl e, rw e t)
    | inr m ↦ let (i, q) = Has-revoke r held p m in (inr i, q)
  ]
  | inl f ↦ let (i, q) = Has-revoke r held p (rw f at h) in (inr i, q)
]

Has-classify :
    (r : Right) (held : List Right) (p : Policy)
    → Has r held
    → Has r (classify held p).keep ⊎ Has r (classify held p).revoke
unfolding classify
Has-classify r [] p h = absurd (none_in h)
Has-classify r (x ∷ held) p (inl e) = elim (Bool-cases (preserves p x)) [
  | inl t ↦ rw t (inl (inl e))
  | inr f ↦ rw f (inr (inl e))
]
Has-classify r (x ∷ held) p (inr h) = elim (Bool-cases (preserves p x)) [
  | inl t ↦ rw t (elim (Has-classify r held p h) [ inl k ↦ inl (inr k) | inr v ↦ inr v ])
  | inr f ↦ rw f (elim (Has-classify r held p h) [ inl k ↦ inl k | inr v ↦ inr (inr v) ])
]

length-classify :
    (held : List Right) (p : Policy)
    → length (classify held p).keep + length (classify held p).revoke ≡ length held
unfolding classify
length-classify [] p = omega arith
length-classify (x ∷ held) p = ground (arith, length-classify held p)

-- `Classify` keeps the held rights that the policy's contract preserves, revokes exactly the other
-- held rights, and puts every entry of the list on one side only.
pub classify_lem :
    (held : List Right) (p : Policy) (r : Right)
    → (Has r (classify held p).keep ↔ (Has r held × Preserved p r))
      × (Has r (classify held p).revoke ↔ (Has r held × ¬ Preserved p r))
      × (length (classify held p).keep + length (classify held p).revoke ≡ length held)
classify_lem held p r = (
  (
    λ h. let (m, t) = Has-keep r held p h in (m, preserves-Preserved p r t),
    λ (m, t). elim (Has-classify r held p m) [
      | inl k ↦ k
      | inr v ↦ absurd (ground (arith, Preserved-preserves p r t, (Has-revoke r held p v).1))
    ],
  ),
  (
    λ h. let (m, f) = Has-revoke r held p h in (m, λ t. ground (arith, Preserved-preserves p r t)),
    λ (m, n). elim (Has-classify r held p m) [
      | inr v ↦ v
      | inl k ↦ absurd (n (preserves-Preserved p r (Has-keep r held p k).1))
    ],
  ),
  length-classify held p,
)
