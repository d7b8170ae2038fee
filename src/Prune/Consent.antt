-- ===== src/Prune/Consent.antt =====
-- The consent to a prune: `rights prune` in cli/cmd/canton-localnet/rights.go.
use canton_localnet.Base.{
  Option, none, some, lit, not, trim_space, equal, equal_iff, Bool-cases, ◌≡◌, ◌≤◌, refl, sym,
  subst, ◌⊎◌, inl, inr, Bool, true, false, Text, List, [], ◌∷◌, Has, none_in, Result, ok, err,
  length, if◌then◌else◌,
}
use canton_localnet.Rights.{Right, Plan, classify, validate, admin_kind}
use canton_localnet.Rights.Split.{Preserved, classify_lem}
use canton_localnet.Rights.Checks.{Holds, ActsAsOwn, validate_iff, new_since-nil}
use canton_localnet.Rights.Client.{Participant, History, rights_of, list_rights}
use canton_localnet.Prune.{
  Target, Console, Outcome, PruneError, continue, from, rights, clean, dry, pure, classify_live,
  revoke, confirm_revoke, agree_and_revoke, execute, prune, aborted, no_consent_given,
  answer_unread,
}
use canton_localnet.Prune.Safety.{Sent, Sent-rights_of, Sent-agree, Live, classify_live-cases}

module _ (p : Participant) (t : Target) (user : Text) (rs : List Right) where
  Sent-execute :
      (dry_run assume_yes : Bool) (console : Console) (consented : Plan) (h : History)
      → Sent user rs (execute p t dry_run assume_yes console consented h).1
      → Sent user rs h
        ⊎ ((dry_run ≡ false)
            × (confirm_revoke console assume_yes ≡ ok tt)
            × Live p t user rs consented h)
  unfolding execute
  Sent-execute dry_run assume_yes console consented h s =
      shown consented.revoke (validate consented t.policy) dry_run s
    where
      shown :
          (revoked : List Right) (v : Result _ (Unit {0})) (skip : Bool)
          → Sent user rs
              ((elim revoked as (λ _. canton_localnet.Prune.M Outcome) [
                | [] ↦ pure (clean consented)
                | _ ∷ _ ↦ λ g.
                    continue
                      (from rights v, g)
                      (λ ready.
                        if skip
                        then pure dry
                        else agree_and_revoke p t assume_yes console consented)
              ])
                h).1
          → Sent user rs h
            ⊎ ((skip ≡ false)
                × (confirm_revoke console assume_yes ≡ ok tt)
                × Live p t user rs consented h)
      shown [] v skip s = inl s
      shown (x ∷ more) (err e) skip s = inl s
      shown (x ∷ more) (ok tt) true s = inl s
      shown (x ∷ more) (ok tt) false s =
          elim (Sent-agree p t user rs assume_yes console consented h s) [
            | inl m ↦ inl m
            | inr (c, l) ↦ inr (refl, c, l)
          ]

-- What a revoke request of a prune rests on: `shown` is the list that the plan printed to the
-- operator was made from, and `live` the list read again before the request.
pub record Agreed (t : Target) (user : Text) (rs shown live : List Right) : Type 0 where
  pub own_user : user ≡ t.user_id
  pub bounded : length rs ≤ t.policy.max_revoke
  pub admin_user : Holds admin_kind live
  pub own_party : ActsAsOwn t.policy live
  pub exactly_live : (r : Right) → Has r rs → Has r live × ¬ Preserved t.policy r
  pub every_live : (r : Right) → Has r live → ¬ Preserved t.policy r → Has r rs
  pub consented :
      (r : Right)
      → Has r rs
      → (s : Right) × Has s (classify shown t.policy).revoke
        × (r.kind ≡ s.kind)
        × (r.party ≡ s.party)

Live-Agreed :
    (p : Participant) (t : Target) (user : Text) (rs shown : List Right)
    → (l : Live p t user rs (classify shown t.policy) (rights_of t.user_id ∷ []))
    → Agreed t user rs shown l.0
Live-Agreed p t user rs shown (live, _, eu, es, c) =
    let (admin, own, bound) = (validate_iff live t.policy).0 c.valid in
    record {
      own_user = eu;
      bounded = rw es bound;
      admin_user = admin;
      own_party = own;
      exactly_live = λ r m. (classify_lem live t.policy r).1.0 (subst (Has r) es m);
      every_live = λ r m n. subst (Has r) (sym es) ((classify_lem live t.policy r).1.1 (m, n));
      consented = λ r m. new_since-nil _ (classify shown t.policy) r c.agreed (subst (Has r) es m);
    }

-- The operator gave `--yes`, or typed the word `revoke` on a terminal, with white space around it at
-- most.
abbrev pub Consents : Console → Bool → Type 0
Consents console assume_yes =
    (assume_yes ≡ true)
    ⊎ ((console.terminal ≡ true)
        × ((line : Text) × (console.answer ≡ some line) × (trim_space line ≡ lit "revoke")))

err-ok : {e : PruneError} → ◌≡◌ {A = Result PruneError (Unit {0})} (err e) (ok tt) → ⊥
err-ok h = cc

confirm_revoke-Consents :
    (console : Console) (assume_yes : Bool)
    → confirm_revoke console assume_yes ≡ ok tt
    → Consents console assume_yes
unfolding confirm_revoke
confirm_revoke-Consents console true h = inl refl
confirm_revoke-Consents console false h = inr (typed console.terminal console.answer h)
  where
    typed :
        (terminal : Bool) (answer : Option Text)
        → ◌≡◌ {A = Result PruneError (Unit {0})}
            (if not terminal then err no_consent_given else elim answer [
              | none ↦ err answer_unread
              | some line ↦ if equal (trim_space line) (lit "revoke") then ok tt else err aborted
            ])
            (ok tt)
        → (terminal ≡ true)
          × ((line : Text) × (answer ≡ some line) × (trim_space line ≡ lit "revoke"))
    typed false answer h = cc
    typed true none h = cc
    typed true (some line) h = elim (Bool-cases (equal (trim_space line) (lit "revoke"))) [
      | inl e ↦ (refl, (line, refl, (equal_iff (trim_space line) (lit "revoke")).0 e))
      | inr e ↦ absurd (err-ok (rw e at h))
    ]

-- If a run of `rights prune` ever sends a request that revokes rights, then it was no dry run, the
-- operator gave `--yes` or typed `revoke` on a terminal, and the request names the target user and exactly those
-- rights of the list just read that the policy does not preserve: no more than the bound, each of a
-- kind and party that the plan shown to the operator revokes, and of a user that holds the admin right and an act-as
-- right on the preserved party.
pub prune_sends :
    (p : Participant) (t : Target) (dry_run assume_yes : Bool) (console : Console) (user : Text)
    (rs : List Right)
    → Sent user rs (prune p t dry_run assume_yes console []).1
    → (dry_run ≡ false)
      × Consents console assume_yes
      × ((shown : List Right) × (live : List Right) × ((list_rights p t.user_id []).0 ≡ ok shown)
          × ((list_rights p t.user_id (rights_of t.user_id ∷ [])).0 ≡ ok live)
          × Agreed t user rs shown live)
unfolding prune
prune_sends p t dry_run assume_yes console user rs s = elim (classify_live-cases p t []) [
  | inl (_, e, _) ↦ absurd (none_in (Sent-rights_of user t.user_id rs [] (rw e at s)))
  | inr (shown, l, e) ↦
      elim (Sent-execute p t user rs dry_run assume_yes console (classify shown t.policy)
        (rights_of t.user_id ∷ []) (rw e at s)) [
          | inl m ↦ absurd (none_in (Sent-rights_of user t.user_id rs [] m))
          | inr (d, c, live) ↦ (
            d,
            confirm_revoke-Consents console assume_yes c,
            (shown, live.0, l, live.1, Live-Agreed p t user rs shown live),
          )
        ]
]
