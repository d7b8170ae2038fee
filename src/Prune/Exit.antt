-- ===== src/Prune/Exit.antt =====
-- The exit code of a prune: `exitCode` in cli/cmd/canton-localnet/exit.go.
use canton_localnet.Base.{
  ◌≡◌, refl, sym, ◌∙◌, inl, inr, Bool, [], ◌∷◌, Result, ok, err, arith, if◌then◌else◌, ℕ, Text,
  ◌++◌, lit, not, is_empty, contains, Bool-cases, subst,
}
use canton_localnet.Rights.{Policy, RightsError, new_policy}
use canton_localnet.Rights.Client.{
  Participant, History, ClientError, rights_of, user_of, primary_party,
}
use canton_localnet.Prune.{
  M, Target, Console, Outcome, PruneError, done, continue, from, on_result, rights, client,
  read_back, appeared, fail, clean, dry, pure, exit_code, send_revoke, revoke_live, revoke,
  confirm_revoke, agree_and_revoke, execute, prune, ◌>>=◌, Source, resolve_preserved_party,
  resolve_policy, user_unresolved, minting,
}
use canton_localnet.Slot.Api.{Request, Reply, Call, Signer, mint_token}
use canton_localnet.Slot.Resolve.{Endpoints}
use canton_localnet.Prune.Command.{
  Flags, with_token, target_user, resolve_rights_target, rights_prune,
}
use canton_localnet.Prune.Quiet.{Ones, Quiet, not-Ones, prune-Quiet}

-- The requests before the first listing: the user is read, unless a party to preserve is given.
abbrev asked_first : Text → Text → History → History
asked_first preserve_party user h = if is_empty preserve_party then user_of user ∷ h else h

preserved-cases :
    (p : Participant) (user hint preserve_party : Text) (h : History)
    → Ones (resolve_preserved_party p user hint preserve_party h).0
      × ((resolve_preserved_party p user hint preserve_party h).1
          ≡ asked_first preserve_party user h)
unfolding resolve_preserved_party
preserved-cases p user hint [] h = primary (primary_party p user h) (unfold primary_party in refl)
  where
    primary :
        (x : Result ClientError Text × History)
        → x.1 ≡ user_of user ∷ h
        → Ones
            (continue {B = Text × Source} (on_result client x) (λ party g. (
              ok (
                  if not (is_empty party)
                  then (party, canton_localnet.Prune.primary)
                  else (hint ++ lit "::", canton_localnet.Prune.hint)),
              g,
            ))).0
          × ((continue {B = Text × Source} (on_result client x) (λ party g. (
            ok (
                if not (is_empty party)
                then (party, canton_localnet.Prune.primary)
                else (hint ++ lit "::", canton_localnet.Prune.hint)),
            g,
          ))).1
              ≡ user_of user ∷ h)
    primary (ok party, g) e = (tt, e)
    primary (err c, g) e = (unfold exit_code in refl, e)
preserved-cases p user hint (c ∷ cs) h = elim (Bool-cases (contains (c ∷ cs) (lit "::"))) [
  | inl e ↦ rw e (tt, refl)
  | inr e ↦ rw e (unfold exit_code in refl, refl)
]

-- Behind the token: an error of exit code 1 or none, or nothing but the reads.
policy-Quiet :
    (p : Participant) (user hint preserve_party : Text) (max_revoke : ℕ) (preserve_base : Bool)
    (dry_run assume_yes : Bool) (console : Console)
    → Quiet (rights_of user ∷ asked_first preserve_party user []) (
        (resolve_policy p user hint preserve_party max_revoke preserve_base >>= λ t.
        prune p t dry_run assume_yes console)
          [])
unfolding resolve_policy
policy-Quiet p user hint preserve_party max_revoke preserve_base dry_run assume_yes console =
    let (one, e) = preserved-cases p user hint preserve_party [] in
    party (resolve_preserved_party p user hint preserve_party []) one e
  where
    policed :
        (r : Result RightsError Policy) (source : Source) (g : History)
        → Quiet (rights_of user ∷ g) (
            continue
              (continue {B = Target}
                (from rights r, g)
                (λ policy h.
                  (ok (record { user_id = user; policy = policy; preserve_source = source }), h)))
              (λ t. prune p t dry_run assume_yes console))
    policed (err e) source g = inl (unfold exit_code in refl)
    policed (ok policy) source g =
        prune-Quiet p (record { user_id = user; policy = policy; preserve_source = source }) dry_run
          assume_yes console g

    party :
        (x : Result PruneError (Text × Source) × History)
        → Ones x.0
        → x.1 ≡ asked_first preserve_party user []
        → Quiet (rights_of user ∷ asked_first preserve_party user []) (
            continue
              (continue {B = Target} x (λ (prefix, source) g.
                continue {B = Target}
                  (from rights (new_policy prefix max_revoke preserve_base), g)
                  (λ policy h. (
                    ok (record { user_id = user; policy = policy; preserve_source = source }),
                    h,
                  ))))
              (λ t. prune p t dry_run assume_yes console))
    party (err e, g) one same = inl one
    party (ok (prefix, source), g) one same =
        subst
          (λ h. Quiet (rights_of user ∷ h) (
            continue
              (continue {B = Target} (from rights (new_policy prefix max_revoke preserve_base), g)
                (λ policy h.
                  (ok (record { user_id = user; policy = policy; preserve_source = source }), h)))
              (λ t. prune p t dry_run assume_yes console)))
          same (policed (new_policy prefix max_revoke preserve_base) source g)

-- What is done with a token.
abbrev on_token : (Text → Participant) → Endpoints → Flags → Console → Text → Text → M Outcome
on_token ledger ep flags console user token =
    resolve_policy (ledger token) user ep.party_hint flags.preserve_party flags.max_revoke
      flags.preserve_base
    >>= λ t. prune (ledger token) t flags.dry_run flags.assume_yes console

with_token-Quiet :
    (ledger : Text → Participant) (ep : Endpoints) (flags : Flags) (console : Console) (user : Text)
    (e : PruneError) (c : Call Text)
    → (with_token c (on_token ledger ep flags console user)).result ≡ err e
    → exit_code e ≡ 2
    → ((with_token c (on_token ledger ep flags console user)).requests
        ≡ rights_of user ∷ asked_first flags.preserve_party user [])
      × ((with_token c (on_token ledger ep flags console user)).token_requests ≡ c.1)
unfolding with_token
with_token-Quiet ledger ep flags console user e (err f, sent) h two =
    absurd (not-Ones {A = Outcome} (err (minting f)) e h two (unfold exit_code in refl))
with_token-Quiet ledger ep flags console user e (ok token, sent) h two =
    elim (policy-Quiet (ledger token) user ep.party_hint flags.preserve_party flags.max_revoke
      flags.preserve_base flags.dry_run flags.assume_yes console) [
        | inl one ↦ absurd (not-Ones (on_token ledger ep flags console user token []).0 e h two one)
        | inr same ↦ (same, refl)
      ]

target_user_lem :
    (ep : Endpoints) (flags : Flags)
    → target_user ep flags ≡ (if is_empty flags.user then ep.validator_user_id else flags.user)
unfolding target_user
target_user_lem ep flags = ground arith

-- When `rights prune` exits with code 2, it has asked for its token, if the slot's kind asks a server
-- for it, and has made only these requests to the participant: it has read the target user, unless
-- `--preserve-party` names a party, and has listed that user's rights once. So it has revoked nothing.
pub exit_code-rights_prune :
    (signer : Signer) (server : Request → Reply) (ledger : Text → Participant) (ep : Endpoints)
    (flags : Flags) (console : Console) (user : Text) (e : PruneError)
    → user ≡ (if is_empty flags.user then ep.validator_user_id else flags.user)
    → (rights_prune signer server ledger ep flags console).result ≡ err e
    → exit_code e ≡ 2
    → ((rights_prune signer server ledger ep flags console).requests
        ≡ rights_of user ∷ (if is_empty flags.preserve_party then user_of user ∷ [] else []))
      × ((rights_prune signer server ledger ep flags console).token_requests
          ≡ (mint_token signer server (record ep { validator_user_id = user })).1)
unfolding rights_prune resolve_rights_target
exit_code-rights_prune signer server ledger ep flags console user e u h two =
    let same = target_user_lem ep flags ∙ sym u in
    elim (Bool-cases (is_empty user)) [
      | inl none ↦ absurd (
          not-Ones {A = Outcome} (err user_unresolved) e (rw (same, none) at h) two
            (unfold exit_code in refl))
      | inr some ↦
          rw (same, some)
            (with_token-Quiet ledger ep flags console user e
              (mint_token signer server (record ep { validator_user_id = user }))
              (rw (same, some) at h) two)
    ]
