-- ===== src/Prune.antt =====
-- The command `rights prune`: cli/cmd/canton-localnet/rights.go and exit.go. The messages are
-- left out but for the plan, and writing to standard output is taken to succeed.
pub mod Safety
pub mod Consent
pub mod Command
pub mod Quiet
pub mod Exit
pub mod Report
use canton_localnet.Base.{
  ℕ, Bool, true, false, not, ◌&&◌, Text, lit, List, [], ◌∷◌, ◌++◌, Option, none, some, Result, ok,
  err, equal, contains, is_empty, trim_space, length, if◌then◌else◌,
}
use canton_localnet.Rights.{
  Right, Policy, Plan, RightsError, new_policy, classify, validate, new_since,
}
use canton_localnet.Slot.Api.{ApiError}
use canton_localnet.Rights.Client.{
  Participant, History, ClientError, primary_party, list_rights, revoke_rights,
}

pub data PruneError : Type 0 where
  client : ClientError → PruneError
  rights : RightsError → PruneError
  user_unresolved : PruneError
  minting : ApiError → PruneError
  bare_preserve_party : Text → PruneError
  appeared : ℕ → PruneError
  read_back : ℕ → ClientError → PruneError
  answer_unread : PruneError
  no_consent_given : PruneError
  aborted : PruneError

-- `exitCode`: `notAuthorised` is the one error with a code of its own.
unfoldable pub exit_code : PruneError → ℕ
exit_code no_consent_given = 2
exit_code aborted = 2
exit_code _ = 1

abbrev pub M : Type 0 → Type 0
M A = History → Result PruneError A × History

-- `if err != nil { return err }`
abbrev pub continue :
    {A B : Type 0} → Result PruneError A × History → (A → M B) → Result PruneError B × History
continue (ok a, h) f = f a h
continue (err e, h) f = (err e, h)

infixl 5 ◌>>=◌
abbrev pub ◌>>=◌ : {A B : Type 0} → M A → (A → M B) → M B
◌>>=◌ m f h = continue (m h) f

abbrev pub pure : {A : Type 0} → A → M A
pure a h = (ok a, h)

abbrev pub fail : {A : Type 0} → PruneError → M A
fail e h = (err e, h)

-- A callee's error passed on.
abbrev pub from {ℓ} :
    {E : Type 0} {A : Type ℓ} → (E → PruneError) → Result E A → Result PruneError A
from f (ok a) = ok a
from f (err e) = err (f e)

abbrev pub on_result :
    {E A : Type 0} → (E → PruneError) → Result E A × History → Result PruneError A × History
on_result f (r, h) = (from f r, h)

pub data Source : Type 0 where
  flag primary hint : Source

pub record Target : Type 0 where
  pub user_id : Text
  pub policy : Policy
  pub preserve_source : Source

-- `resolvePreservedParty`
unfoldable pub resolve_preserved_party : Participant → Text → Text → Text → M (Text × Source)
unfolding lit contains
resolve_preserved_party p user party_hint preserve_party =
    if not (is_empty preserve_party)
    then (if not (contains preserve_party (lit "::"))
        then fail (bare_preserve_party preserve_party)
        else pure (preserve_party, flag))
    else do
      party ← λ h. on_result client (primary_party p user h)
      pure (if not (is_empty party) then (party, primary) else (party_hint ++ lit "::", hint))

-- `resolveRightsTarget` from `resolvePreservedParty` on.
unfoldable pub resolve_policy : Participant → Text → Text → Text → ℕ → Bool → M Target
unfolding resolve_preserved_party
resolve_policy p user party_hint preserve_party max_revoke preserve_base = do
  (prefix, source) ← resolve_preserved_party p user party_hint preserve_party
  policy ← λ h. (from rights (new_policy prefix max_revoke preserve_base), h)
  pure (record { user_id = user; policy = policy; preserve_source = source })

unfoldable pub classify_live : Participant → Target → M Plan
classify_live p t = do
  held ← λ h. on_result client (list_rights p t.user_id h)
  pure (classify held t.policy)

-- What a prune that ends without an error has done.
pub data Outcome : Type 0 where
  clean : Plan → Outcome
  dry : Outcome
  done : ℕ → ℕ → Outcome

-- The end of `revoke`, from the request on.
unfoldable pub send_revoke : Participant → Target → Plan → M Outcome
send_revoke p t live = do
  revoked ← λ h. on_result client (revoke_rights p t.user_id live.revoke h)
  remaining ← λ h. on_result (read_back (length revoked)) (list_rights p t.user_id h)
  pure (done (length revoked) (length remaining))

-- The checks of `revoke` on the live plan.
unfoldable pub revoke_live : Participant → Target → Plan → Plan → M Outcome
revoke_live p t consented live = do
  ready ← λ h. (from rights (validate live t.policy), h)
  (elim (new_since live consented) [
    | r ∷ added ↦ fail (appeared (length (r ∷ added)))
    | [] ↦ elim live.revoke [ [] ↦ pure (clean live) | _ ∷ _ ↦ send_revoke p t live ]
  ])

unfoldable pub revoke : Participant → Target → Plan → M Outcome
revoke p t consented = do live ← classify_live p t; revoke_live p t consented live

-- Standard input: whether it is a terminal, and the line typed, if one can be read.
pub record Console : Type 0 where
  pub terminal : Bool
  pub answer : Option Text

unfoldable pub confirm_revoke : Console → Bool → Result PruneError (Unit {0})
unfolding trim_space equal lit
confirm_revoke console assume_yes =
    if assume_yes
    then ok tt
    else if not console.terminal
    then err no_consent_given
    else elim console.answer [
      | none ↦ err answer_unread
      | some line ↦ if equal (trim_space line) (lit "revoke") then ok tt else err aborted
    ]

-- The end of `rights prune`, from the question on.
unfoldable pub agree_and_revoke : Participant → Target → Bool → Console → Plan → M Outcome
agree_and_revoke p t assume_yes console consented = do
  agreed ← λ h. (confirm_revoke console assume_yes, h)
  revoke p t consented

-- The checks of `rights prune` on the plan that it has shown.
unfoldable pub execute : Participant → Target → Bool → Bool → Console → Plan → M Outcome
execute p t dry_run assume_yes console consented = elim consented.revoke [
  | [] ↦ pure (clean consented)
  | _ ∷ _ ↦ do
    ready ← λ h. (from rights (validate consented t.policy), h)
    if dry_run then pure dry else agree_and_revoke p t assume_yes console consented
]

-- `rights prune` on its target; Prune/Command has what comes before.
unfoldable pub prune : Participant → Target → Bool → Bool → Console → M Outcome
prune p t dry_run assume_yes console = do
  consented ← classify_live p t
  execute p t dry_run assume_yes console consented
