-- ===== src/Prune/Command.antt =====
-- The whole of `rights prune` behind the endpoints of the slot, with the minting of the token and the
-- preserved party: `resolveRightsTarget` and `newRightsPruneCommand` in
-- cli/cmd/canton-localnet/rights.go.
use canton_localnet.Base.{ℕ, Bool, not, Text, List, [], Result, ok, err, is_empty, if◌then◌else◌}
use canton_localnet.Slot.Api.{Request, Reply, Call, Signer, mint_token}
use canton_localnet.Slot.Resolve.{Endpoints}
use canton_localnet.Rights.Client.{Participant, History}
use canton_localnet.Prune.{
  M, ◌>>=◌, PruneError, user_unresolved, minting, Target, Console, Outcome, resolve_policy, prune,
}

pub record Flags : Type 0 where
  pub preserve_party : Text
  pub user : Text
  pub preserve_base : Bool
  pub assume_yes : Bool
  pub dry_run : Bool
  pub max_revoke : ℕ

-- The result of a command, the requests for its token, and those to the participant, newest first.
pub record CommandRun (A : Type 0) : Type 0 where
  pub result : Result PruneError A
  pub token_requests : List Request
  pub requests : History

-- What follows `MintToken`.
unfoldable pub with_token : {A : Type 0} → Call Text → (Text → M A) → CommandRun A
with_token (err e, sent) f = record {
  result = err (minting e);
  token_requests = sent;
  requests = [];
}
with_token (ok token, sent) f = record {
  result = (f token []).0;
  token_requests = sent;
  requests = (f token []).1;
}

-- `ep.ValidatorUserID`, with `--user` over it.
unfoldable pub target_user : Endpoints → Flags → Text
target_user ep flags = if not (is_empty flags.user) then flags.user else ep.validator_user_id

-- `resolveRightsTarget`, and then what its caller does with the target; `ledger` is the participant as
-- it answers the bearer of a token.
unfoldable pub resolve_rights_target :
    {A : Type 0}
    → Signer
    → (Request → Reply)
    → (Text → Participant)
    → Endpoints
    → Flags
    → (Participant → Target → M A)
    → CommandRun A
unfolding with_token target_user
resolve_rights_target signer server ledger ep flags next =
    if is_empty (target_user ep flags)
    then record { result = err user_unresolved; token_requests = []; requests = [] }
    else with_token
        (mint_token signer server (record ep { validator_user_id = target_user ep flags }))
        (λ token.
          resolve_policy (ledger token) (target_user ep flags) ep.party_hint flags.preserve_party
            flags.max_revoke flags.preserve_base
          >>= next (ledger token))

-- `rights prune` on the endpoints of the slot.
unfoldable pub rights_prune :
    Signer
    → (Request → Reply)
    → (Text → Participant)
    → Endpoints
    → Flags
    → Console
    → CommandRun Outcome
unfolding resolve_rights_target
rights_prune signer server ledger ep flags console =
    resolve_rights_target signer server ledger ep flags
      (λ p t. prune p t flags.dry_run flags.assume_yes console)
