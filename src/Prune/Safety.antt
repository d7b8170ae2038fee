-- ===== src/Prune/Safety.antt =====
-- What a prune may send to the participant.
use canton_localnet.Base.{
  ◌≡◌, refl, ◌⊎◌, inl, inr, Bool, Text, List, [], ◌∷◌, Has, Result, ok, err, length,
}
use canton_localnet.Rights.{Right, Plan, classify, validate, new_since}
use canton_localnet.Rights.Client.{
  Participant, History, ClientError, rights_of, revoke_of, list_rights, revoke_rights,
}
use canton_localnet.Prune.{
  Target, Console, Outcome, done, PruneError, read_back, aborted, no_consent_given, continue, M,
  on_result, from, exit_code, rights, client, classify_live, send_revoke, revoke_live, revoke,
  confirm_revoke, agree_and_revoke, execute, prune,
}

-- A call either ends with the first error, or goes on from its value and history.
pub continue-cases :
    {A B : Type 0} (x : Result PruneError A × History) (f : A → M B)
    → ((e : PruneError) × (x.0 ≡ err e) × (continue x f ≡ (err e, x.1)))
      ⊎ ((a : A) × (x.0 ≡ ok a) × (continue x f ≡ f a x.1))
continue-cases (ok a, h) f = inr (a, refl, refl)
continue-cases (err e, h) f = inl (e, refl, refl)

list_rights-history :
    (p : Participant) (user : Text) (h : History) → (list_rights p user h).1 ≡ rights_of user ∷ h
unfolding list_rights
list_rights-history p user h = refl

revoke_rights-history :
    (p : Participant) (user : Text) (rs : List Right) (h : History)
    → (revoke_rights p user rs h).1 ≡ revoke_of user rs ∷ h
unfolding revoke_rights
revoke_rights-history p user rs h = refl

-- The history holds a request that revokes these rights of this user.
abbrev pub Sent : Text → List Right → History → Type 0
Sent user rs h = Has (revoke_of user rs) h

pub Sent-rights_of :
    (user u : Text) (rs : List Right) (h : History)
    → Sent user rs (rights_of u ∷ h)
    → Sent user rs h
Sent-rights_of user u rs h (inl e) = absurd (cc)
Sent-rights_of user u rs h (inr s) = s

pub classify_live-cases :
    (p : Participant) (t : Target) (h : History)
    → ((e : PruneError) × (classify_live p t h ≡ (err e, rights_of t.user_id ∷ h))
        × (exit_code e ≡ 1))
      ⊎ ((held : List Right) × ((list_rights p t.user_id h).0 ≡ ok held)
          × (classify_live p t h ≡ (ok (classify held t.policy), rights_of t.user_id ∷ h)))
unfolding classify_live
classify_live-cases p t h = listed (list_rights p t.user_id h) (list_rights-history p t.user_id h)
  where
    listed :
        (x : Result ClientError (List Right) × History)
        → x.1 ≡ rights_of t.user_id ∷ h
        → ((e : PruneError) × (continue
                (on_result client x)
                (λ held g. (ok (classify held t.policy), g))
              ≡ (err e, rights_of t.user_id ∷ h))
            × (exit_code e ≡ 1))
          ⊎ ((held : List Right) × (x.0 ≡ ok held)
              × (continue (on_result client x) (λ held g. (ok (classify held t.policy), g))
                  ≡ (ok (classify held t.policy), rights_of t.user_id ∷ h)))
    listed (ok held, g) e = inr (held, refl, rw e)
    listed (err c, g) e = inl (client c, rw e, unfold exit_code in refl)

-- The live plan that a revoke request was built from, with the checks it passed.
pub record Cleared (t : Target) (consented live : Plan) : Type 0 where
  pub valid : validate live t.policy ≡ ok tt
  pub agreed : new_since live consented ≡ []

module _ (p : Participant) (t : Target) (user : Text) (rs : List Right) where
  Sent-send_revoke :
      (live : Plan) (h : History)
      → Sent user rs (send_revoke p t live h).1
      → Sent user rs h ⊎ ((user ≡ t.user_id) × (rs ≡ live.revoke))
  unfolding send_revoke
  Sent-send_revoke live h s = elim (continue-cases first after_revoke) [
    | inl (_, _, e) ↦ sent (rw (e, revoke_rights-history) at s)
    | inr (newly, _, e) ↦ elim (continue-cases (second newly) (after_list newly)) [
      | inl (_, _, f) ↦ sent (
          Sent-rights_of user t.user_id rs (revoke_of t.user_id live.revoke ∷ h)
            (rw (e, f, list_rights-history, revoke_rights-history) at s))
      | inr (left, _, f) ↦ sent (
          Sent-rights_of user t.user_id rs (revoke_of t.user_id live.revoke ∷ h)
            (rw (e, f, list_rights-history, revoke_rights-history) at s))
    ]
  ]
    where
      first : Result PruneError (List Right) × History
      first = on_result client (revoke_rights p t.user_id live.revoke h)

      second : List Right → Result PruneError (List Right) × History
      second newly = on_result (read_back (length newly)) (list_rights p t.user_id first.1)

      after_list : List Right → List Right → M Outcome
      after_list newly left g = (ok (done (length newly) (length left)), g)

      after_revoke : List Right → M Outcome
      after_revoke newly g =
          continue (on_result (read_back (length newly)) (list_rights p t.user_id g))
            (after_list newly)

      sent :
          Sent user rs (revoke_of t.user_id live.revoke ∷ h)
          → Sent user rs h ⊎ ((user ≡ t.user_id) × (rs ≡ live.revoke))
      sent (inl e) = inr (cc, cc)
      sent (inr m) = inl m

  Sent-revoke_live :
      (consented live : Plan) (h : History)
      → Sent user rs (revoke_live p t consented live h).1
      → Sent user rs h ⊎ ((user ≡ t.user_id) × (rs ≡ live.revoke) × Cleared t consented live)
  unfolding revoke_live
  Sent-revoke_live consented live h s =
      checked (validate live t.policy) (new_since live consented) live.revoke refl refl refl s
    where
      checked :
          (v : Result _ (Unit {0})) (added revoked : List Right)
          → validate live t.policy ≡ v
          → new_since live consented ≡ added
          → live.revoke ≡ revoked
          → Sent user rs
              (continue
                (from rights v, h)
                (λ ready. elim added [
                  | r ∷ more ↦
                      canton_localnet.Prune.fail
                        (canton_localnet.Prune.appeared (length (r ∷ more)))
                  | [] ↦ elim revoked [
                    | [] ↦ canton_localnet.Prune.pure (canton_localnet.Prune.clean live)
                    | _ ∷ _ ↦ send_revoke p t live
                  ]
                ])).1
          → Sent user rs h ⊎ ((user ≡ t.user_id) × (rs ≡ live.revoke) × Cleared t consented live)
      checked (err e) added revoked ev ea er s = inl s
      checked (ok tt) (r ∷ more) revoked ev ea er s = inl s
      checked (ok tt) [] [] ev ea er s = inl s
      checked (ok tt) [] (x ∷ more) ev ea er s = elim (Sent-send_revoke live h s) [
        | inl m ↦ inl m
        | inr (eu, es) ↦ inr (eu, es, record { valid = ev; agreed = ea })
      ]

  -- The rights of the request come from the list that the participant served just before it.
  abbrev pub Live : Plan → History → Type 0
  Live consented h =
      (held : List Right) × ((list_rights p t.user_id h).0 ≡ ok held)
      × (user ≡ t.user_id)
      × (rs ≡ (classify held t.policy).revoke)
      × Cleared t consented (classify held t.policy)

  Sent-revoke :
      (consented : Plan) (h : History)
      → Sent user rs (revoke p t consented h).1
      → Sent user rs h ⊎ Live consented h
  unfolding revoke
  Sent-revoke consented h s = elim (classify_live-cases p t h) [
    | inl (_, e, _) ↦ inl (Sent-rights_of user t.user_id rs h (rw e at s))
    | inr (held, l, e) ↦
        elim (Sent-revoke_live consented (classify held t.policy) (rights_of t.user_id ∷ h)
          (rw e at s)) [
            | inl m ↦ inl (Sent-rights_of user t.user_id rs h m)
            | inr (eu, es, c) ↦ inr (held, l, eu, es, c)
          ]
  ]

  pub Sent-agree :
      (assume_yes : Bool) (console : Console) (consented : Plan) (h : History)
      → Sent user rs (agree_and_revoke p t assume_yes console consented h).1
      → Sent user rs h ⊎ ((confirm_revoke console assume_yes ≡ ok tt) × Live consented h)
  unfolding agree_and_revoke
  Sent-agree assume_yes console consented h s = answered (confirm_revoke console assume_yes) s
    where
      answered :
          (x : Result PruneError (Unit {0}))
          → Sent user rs (continue (x, h) (λ agreed. revoke p t consented)).1
          → Sent user rs h ⊎ ((x ≡ ok tt) × Live consented h)
      answered (err e) s = inl s
      answered (ok tt) s = elim (Sent-revoke consented h s) [
        | inl m ↦ inl m
        | inr l ↦ inr (refl, l)
      ]
