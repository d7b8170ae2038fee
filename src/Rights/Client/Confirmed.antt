-- ===== src/Rights/Client/Confirmed.antt =====
-- The confirmation of a revoke: `Revoke` in cli/internal/rights/client.go.
use canton_localnet.Base.{
  ◌≤◌, ◌≡◌, refl, Text, lit, List, [], ◌∷◌, ok, err, All, Has, length, arith, Bool-cases, inl, inr,
  Result, ◌↔◌,
}
use canton_localnet.Rights.{Right, identity_in}
use canton_localnet.Rights.Checks.{identity_in_iff}
use canton_localnet.Rights.Client.{
  Participant, History, ClientError, confirmed_count, check_revoked, decode_rights, do_request,
  revoke_of, revoke_rights,
}

-- The list holds a right of the same kind and party.
abbrev pub Confirmed : List Right → Right → Type 0
Confirmed newly r = (s : Right) × Has s newly × (r.kind ≡ s.kind) × (r.party ≡ s.party)

confirmed_count-bound : (newly rights : List Right) → confirmed_count newly rights ≤ length rights
unfolding confirmed_count
confirmed_count-bound newly [] = omega arith
confirmed_count-bound newly (r ∷ rights) = ground (arith, confirmed_count-bound newly rights)

confirmed_count-All :
    (newly rights : List Right)
    → confirmed_count newly rights ≡ length rights
    → All (Confirmed newly) rights
unfolding confirmed_count
confirmed_count-All newly [] h = tt
confirmed_count-All newly (r ∷ rights) h = elim (Bool-cases (identity_in newly r)) [
  | inl t ↦ ((identity_in_iff newly r).0 t, confirmed_count-All newly rights (ground (arith, t)))
  | inr f ↦ absurd (ground (arith, f, confirmed_count-bound newly rights))
]

All-confirmed_count :
    (newly rights : List Right)
    → All (Confirmed newly) rights
    → confirmed_count newly rights ≡ length rights
unfolding confirmed_count
All-confirmed_count newly [] h = refl
All-confirmed_count newly (r ∷ rights) (c, h) =
    ground (arith, (identity_in_iff newly r).1 c, All-confirmed_count newly rights h)

check_revoked-ok :
    (rights newly : List Right) (x : Result ClientError (List Right))
    → (check_revoked rights x ≡ ok newly)
      ↔ ((x ≡ ok newly) × (confirmed_count newly rights ≡ length rights))
unfolding check_revoked
check_revoked-ok rights newly (err e) = (λ h. cc, λ h. cc)
check_revoked-ok rights newly (ok list) =
    (λ h. (ground (arith, h), ground (arith, h)), λ (e, c). ground (arith, e, c))

-- `Revoke` returns a list exactly if the participant reported that list, with status 2xx, and it
-- has a right of the same kind and party for each right that was to be revoked.
pub revoke_rights_iff :
    (p : Participant) (user : Text) (rights newly : List Right) (h : History)
    → ((revoke_rights p user rights h).0 ≡ ok newly) ↔ (
        (decode_rights (lit "newlyRevokedRights") (do_request p (revoke_of user rights) h)
          ≡ ok newly)
        × All (Confirmed newly) rights)
unfolding revoke_rights
revoke_rights_iff p user rights newly h =
    let reported =
      decode_rights (lit "newlyRevokedRights") (do_request p (revoke_of user rights) h) in
    (
      λ e.
          let (r, c) = (check_revoked-ok rights newly reported).0 e in
          (r, confirmed_count-All newly rights c),
      λ (r, a). (check_revoked-ok rights newly reported).1 (r, All-confirmed_count newly rights a),
    )
