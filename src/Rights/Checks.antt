-- ===== src/Rights/Checks.antt =====
-- When a plan may be executed, and what a live plan revokes beyond the one agreed to.
use canton_localnet.Base.{
  ◌≤◌, ◌≡◌, ◌≢◌, refl, inl, inr, ◌↔◌, true, false, Bool-cases, Text, equal, equal_iff, has_prefix,
  List, [], Has, Has-any, any-Has, Has-filter, none_in, length, arith, ok, subst,
}
use canton_localnet.Rights.{
  Right, Policy, Plan, classify, keeps, validate, same_identity, identity_in, new_since, admin_kind,
  act_as_kind, read_as_kind,
}
use canton_localnet.Rights.Split.{Preserved, classify_lem}

-- Some right of the list has the kind.
abbrev pub Holds : Text → List Right → Type 0
Holds kind rights = (r : Right) × Has r rights × (r.kind ≡ kind)

keeps-Holds : (p : Plan) (kind : Text) → (keeps p kind ≡ true) ↔ Holds kind p.keep
unfolding keeps
keeps-Holds p kind = (
  λ h. let (r, m, e) = any-Has _ p.keep h in (r, m, (equal_iff r.kind kind).0 e),
  λ (r, m, e). Has-any _ p.keep r m ((equal_iff r.kind kind).1 e),
)

validate_iff_plan :
    (p : Plan) (policy : Policy)
    → (validate p policy ≡ ok tt)
      ↔ (Holds admin_kind p.keep × Holds act_as_kind p.keep × (length p.revoke ≤ policy.max_revoke))
unfolding validate
validate_iff_plan p policy = (
  λ h. (
    (keeps-Holds p admin_kind).0 (ground arith),
    (keeps-Holds p act_as_kind).0 (ground arith),
    ground arith,
  ),
  λ (x, y, z).
      let hx : keeps p admin_kind ≡ true = (keeps-Holds p admin_kind).1 x in
      let hy : keeps p act_as_kind ≡ true = (keeps-Holds p act_as_kind).1 y in ground arith,
)

act_as-ne-admin : equal act_as_kind admin_kind ≡ false
unfolding act_as_kind admin_kind equal
act_as-ne-admin = refl

act_as-ne-read_as : equal act_as_kind read_as_kind ≡ false
unfolding act_as_kind read_as_kind equal
act_as-ne-read_as = refl

-- The user may act as the preserved party.
abbrev pub ActsAsOwn : Policy → List Right → Type 0
ActsAsOwn p held =
    (r : Right) × Has r held
    × (r.kind ≡ act_as_kind)
    × (p.party_prefix ≢ [])
    × (has_prefix r.party p.party_prefix ≡ true)

Preserved-act_as :
    (p : Policy) (r : Right)
    → r.kind ≡ act_as_kind
    → Preserved p r
    → (p.party_prefix ≢ []) × (has_prefix r.party p.party_prefix ≡ true)
Preserved-act_as p r e (inl k) =
    absurd (ground (arith, act_as-ne-admin, equal_iff act_as_kind admin_kind))
Preserved-act_as p r e (inr (ne, pre, k)) = (ne, pre)

-- A plan made by `Classify` passes `Validate` exactly if the user holds the admin right, holds an
-- act-as right on the party that the policy names, and no more rights would go than the bound.
pub validate_iff :
    (held : List Right) (p : Policy)
    → (validate (classify held p) p ≡ ok tt) ↔ (
        Holds admin_kind held × ActsAsOwn p held × (length (classify held p).revoke ≤ p.max_revoke))
validate_iff held p = (
  λ h.
      let ((r, m, e), (s, n, f), b) = (validate_iff_plan (classify held p) p).0 h in
      let (ms, ps) = (classify_lem held p s).0.0 n in
      let (ne, pre) = Preserved-act_as p s f ps in
      ((r, ((classify_lem held p r).0.0 m).0, e), (s, ms, f, ne, pre), b),
  λ ((r, m, e), (s, n, f, ne, pre), b). (validate_iff_plan (classify held p) p).1 (
    (r, (classify_lem held p r).0.1 (m, inl e), e),
    (s, (classify_lem held p s).0.1 (n, inr (ne, pre, inl f)), f),
    b,
  ),
)

pub identity_in_iff :
    (rights : List Right) (r : Right)
    → (identity_in rights r ≡ true)
      ↔ ((s : Right) × Has s rights × (r.kind ≡ s.kind) × (r.party ≡ s.party))
unfolding identity_in same_identity
identity_in_iff rights r = (
  λ h.
      let (s, m, e) = any-Has _ rights h in
      (s, m, ground (arith, equal_iff r.kind s.kind), ground (arith, equal_iff r.party s.party)),
  λ (s, m, e, f).
      Has-any _ rights s m (ground (arith, equal_iff r.kind s.kind, equal_iff r.party s.party)),
)

-- `NewSince` lists exactly the rights that the plan revokes and for which the consented plan
-- revokes no right of the same kind and party.
pub new_since_iff :
    (p consented : Plan) (r : Right)
    → Has r (new_since p consented) ↔ (
        Has r p.revoke
        × ¬ ((s : Right) × Has s consented.revoke × (r.kind ≡ s.kind) × (r.party ≡ s.party)))
unfolding new_since
new_since_iff p consented r = (
  λ h.
      let (m, e) = (Has-filter _ p.revoke r).0 h in
      (m, λ w. ground (arith, (identity_in_iff consented.revoke r).1 w)),
  λ (m, n). (Has-filter _ p.revoke r).1 (
    m,
    elim (Bool-cases (identity_in consented.revoke r)) [
      | inl t ↦ absurd (n ((identity_in_iff consented.revoke r).0 t))
      | inr f ↦ rw f
    ],
  ),
)

-- With nothing new, every right that the plan revokes has its identity in the consented plan.
pub new_since-nil :
    (p consented : Plan) (r : Right)
    → new_since p consented ≡ []
    → Has r p.revoke
    → (s : Right) × Has s consented.revoke × (r.kind ≡ s.kind) × (r.party ≡ s.party)
unfolding new_since
new_since-nil p consented r none_new m = elim (Bool-cases (identity_in consented.revoke r)) [
  | inl t ↦ (identity_in_iff consented.revoke r).0 t
  | inr f ↦ absurd (none_in (subst (Has r) none_new ((Has-filter _ p.revoke r).1 (m, rw f))))
]
