-- ===== src/Prune/Quiet.antt =====
-- The steps of a prune behind its target: an error with exit code 1 or none, or no request of theirs.
use canton_localnet.Base.{
  ◌≡◌, refl, ap, ◌⊎◌, inl, inr, Bool, true, false, List, [], ◌∷◌, Result, ok, err, arith, length,
  if◌then◌else◌,
}
use canton_localnet.Rights.{Right, Plan, classify, validate, new_since}
use canton_localnet.Rights.Client.{
  Participant, History, ClientError, rights_of, list_rights, revoke_rights,
}
use canton_localnet.Prune.{
  M, Target, Console, Outcome, PruneError, done, continue, from, on_result, rights, client,
  read_back, appeared, fail, clean, dry, pure, exit_code, send_revoke, revoke_live, revoke,
  confirm_revoke, agree_and_revoke, execute, prune,
}
use canton_localnet.Prune.Safety.{classify_live-cases}

-- A run that ends in an error with exit code 1, or in no error.
abbrev pub Ones : {A : Type 0} → Result PruneError A → Type 0
Ones (ok a) = Unit
Ones (err e) = exit_code e ≡ 1

send_revoke-Ones :
    (p : Participant) (t : Target) (live : Plan) (h : History) → Ones (send_revoke p t live h).0
unfolding send_revoke
send_revoke-Ones p t live h = revoked (revoke_rights p t.user_id live.revoke h)
  where
    listed :
        (newly : List Right) (y : Result ClientError (List Right) × History)
        → Ones
            (continue {B = Outcome}
              (on_result (read_back (length newly)) y)
              (λ left g. (ok (done (length newly) (length left)), g))).0
    listed newly (ok left, g) = tt
    listed newly (err c, g) = unfold exit_code in refl

    revoked :
        (x : Result ClientError (List Right) × History)
        → Ones
            (continue (on_result client x) (λ newly g.
              continue {B = Outcome}
                (on_result (read_back (length newly)) (list_rights p t.user_id g))
                (λ left g'. (ok (done (length newly) (length left)), g')))).0
    revoked (ok newly, g) = listed newly (list_rights p t.user_id g)
    revoked (err c, g) = unfold exit_code in refl

revoke_live-Ones :
    (p : Participant) (t : Target) (consented live : Plan) (h : History)
    → Ones (revoke_live p t consented live h).0
unfolding revoke_live
revoke_live-Ones p t consented live h =
    checked (validate live t.policy) (new_since live consented) live.revoke
  where
    checked :
        (v : Result _ (Unit {0})) (added revoked : List Right)
        → Ones
            (continue {B = Outcome}
              (from rights v, h)
              (λ ready. elim added [
                | r ∷ more ↦ fail (appeared (length (r ∷ more)))
                | [] ↦ elim revoked [ [] ↦ pure (clean live) | _ ∷ _ ↦ send_revoke p t live ]
              ])).0
    checked (err e) added revoked = unfold exit_code in refl
    checked (ok tt) (r ∷ more) revoked = unfold exit_code in refl
    checked (ok tt) [] [] = tt
    checked (ok tt) [] (x ∷ more) = send_revoke-Ones p t live h

revoke-Ones :
    (p : Participant) (t : Target) (consented : Plan) (h : History)
    → Ones (revoke p t consented h).0
unfolding revoke
revoke-Ones p t consented h = elim (classify_live-cases p t h) [
  | inl (e, q, one) ↦ rw q one
  | inr (held, _, q) ↦
      rw q (revoke_live-Ones p t consented (classify held t.policy) (rights_of t.user_id ∷ h))
]

-- The error, if there is one, has exit code 1, or nothing was sent behind the history `h`.
abbrev pub Quiet : {A : Type 0} → History → Result PruneError A × History → Type 0
Quiet h r = Ones r.0 ⊎ (r.1 ≡ h)

agree-Quiet :
    (p : Participant) (t : Target) (assume_yes : Bool) (console : Console) (consented : Plan)
    (h : History)
    → Quiet h (agree_and_revoke p t assume_yes console consented h)
unfolding agree_and_revoke
agree-Quiet p t assume_yes console consented h = answered (confirm_revoke console assume_yes)
  where
    answered :
        (x : Result PruneError (Unit {0}))
        → Quiet h (continue {B = Outcome} (x, h) (λ agreed. revoke p t consented))
    answered (ok tt) = inl (revoke-Ones p t consented h)
    answered (err e) = inr refl

execute-Quiet :
    (p : Participant) (t : Target) (dry_run assume_yes : Bool) (console : Console)
    (consented : Plan) (h : History)
    → Quiet h (execute p t dry_run assume_yes console consented h)
unfolding execute
execute-Quiet p t dry_run assume_yes console consented h =
    shown consented.revoke (validate consented t.policy) dry_run
  where
    shown :
        (revoked : List Right) (v : Result _ (Unit {0})) (skip : Bool)
        → Quiet h (
            (elim revoked as (λ _. M Outcome) [
              | [] ↦ pure (clean consented)
              | _ ∷ _ ↦ λ g.
                  continue
                    (from rights v, g)
                    (λ ready.
                      if skip then pure dry else agree_and_revoke p t assume_yes console consented)
            ])
              h)
    shown [] v skip = inr refl
    shown (x ∷ more) (err e) skip = inr refl
    shown (x ∷ more) (ok tt) true = inr refl
    shown (x ∷ more) (ok tt) false = agree-Quiet p t assume_yes console consented h

pub not-Ones :
    {A : Type 0} (x : Result PruneError A) (e : PruneError) → x ≡ err e → exit_code e ≡ 2 → ¬ Ones x
not-Ones (ok a) e h two o = cc
not-Ones (err f) e h two o = ground (arith, ap Ones h)

-- What follows the target, in any history.
pub prune-Quiet :
    (p : Participant) (t : Target) (dry_run assume_yes : Bool) (console : Console) (h : History)
    → Quiet (rights_of t.user_id ∷ h) (prune p t dry_run assume_yes console h)
unfolding prune
prune-Quiet p t dry_run assume_yes console h = elim (classify_live-cases p t h) [
  | inl (_, q, _) ↦ rw q (inr refl)
  | inr (held, _, q) ↦ rw q (
      execute-Quiet p t dry_run assume_yes console (classify held t.policy)
        (rights_of t.user_id ∷ h))
]
