-- ===== src/EnvCommand/Prepare.antt =====
-- The first pass of `resolveEnvVars`, without network calls: cli/cmd/canton-localnet/env.go.
use canton_localnet.Base.{
  Bool, true, false, not, Text, List, [], ◌∷◌, ◌++◌, Option, Result, ok, err, ◌>>=◌, ◌>>◌, guard,
  wrap, is_empty, ℤ, pos, zero,
}
use canton_localnet.Slot.{ParseError, parse}
use canton_localnet.Slot.Resolve.{Endpoints, ResolveError}
use canton_localnet.Slot.Resolve.Ci.{resolve_ci}
use canton_localnet.Slot.Api.{ApiError}
use canton_localnet.Config.{Config}
use canton_localnet.AuthCommand.{AuthError, resolve_slot_endpoints}
use canton_localnet.EnvCommand.{EnvVar}
use canton_localnet.EnvCommand.Snapshot.{
  EnvOptions, Machine, StaticError, require_credential_contract, read_splice_version,
  global_env_vars, static_slot_env_vars,
}

-- The machine, what `optionalRepoRoot` gives (an empty text where it finds none), and what the
-- resolution of the configuration gives.
pub record Setup (E : Type 0) : Type 0 where
  pub machine : Machine
  pub optional_root : Result E Text
  pub configured : Result E (Config × Option Text)

pub data EnvError (E : Type 0) : Type 0 where
  slot_flag_missing : EnvError E
  no_repo_root : EnvError E
  locating : E → EnvError E
  slot_flag : ParseError → EnvError E
  endpoints : AuthError E → EnvError E
  ci_slot : ResolveError → EnvError E
  static : StaticError → EnvError E
  masking : EnvError E
  network : ApiError → EnvError E

module _ {E : Type 0} (setup : Setup E) where
  unfoldable pub required_repo_root : Result (EnvError E) Text
  required_repo_root = do
    root ← wrap locating setup.optional_root
    guard (not (is_empty root)) no_repo_root
    ok root

  -- The slot flag of one turn of the loop, by `resolveSlotEndpoints`.
  unfoldable pub flag_endpoints : Text → Text → Result (EnvError E) Endpoints
  unfolding parse resolve_slot_endpoints
  flag_endpoints repo_root raw = do
    guard (not (is_empty raw)) slot_flag_missing
    s ← wrap slot_flag (parse raw)
    wrap endpoints (
        resolve_slot_endpoints setup.machine.files setup.machine.lookup setup.configured s
          repo_root)

  -- `if opts.ciSlot != 0 { ep, err = slot.ResolveCI(…) }`
  unfoldable pub with_ci_slot : Text → ℤ → Endpoints → Result (EnvError E) Endpoints
  unfolding resolve_ci
  with_ci_slot repo_root (pos zero) ep = ok ep
  with_ci_slot repo_root n ep =
      wrap ci_slot (resolve_ci setup.machine.files ep repo_root n setup.machine.lookup)

  unfoldable pub all_endpoints :
      Text → EnvOptions → List Text → Result (EnvError E) (List Endpoints)
  unfolding flag_endpoints with_ci_slot require_credential_contract
  all_endpoints repo_root opts [] = ok []
  all_endpoints repo_root opts (raw ∷ flags) = do
    found ← flag_endpoints repo_root raw
    ep ← with_ci_slot repo_root opts.ci_slot found
    wrap static (require_credential_contract ep)
    rest ← all_endpoints repo_root opts flags
    ok (ep ∷ rest)

  -- The loop that appends the variables of each slot.
  unfoldable pub all_static_vars :
      Text → EnvOptions → List Endpoints → Result (EnvError E) (List EnvVar)
  unfolding static_slot_env_vars
  all_static_vars repo_root opts [] = ok []
  all_static_vars repo_root opts (ep ∷ eps) = do
    vars ← wrap static (static_slot_env_vars setup.machine repo_root ep opts)
    rest ← all_static_vars repo_root opts eps
    ok (vars ++ rest)

  -- `globalEnvVars(endpoints[0], …)`; there is an endpoint for each flag, so one at least.
  unfoldable pub head_vars : List Endpoints → Text → Result (EnvError E) (List EnvVar)
  unfolding global_env_vars
  head_vars [] splice_version = err slot_flag_missing
  head_vars (ep ∷ eps) splice_version =
      wrap static (global_env_vars setup.machine ep splice_version)

  unfoldable pub has_flag : List Text → Bool
  has_flag [] = false
  has_flag (raw ∷ flags) = true

  unfoldable pub prepare :
      List Text → EnvOptions → Result (EnvError E) (List Endpoints × List EnvVar)
  unfolding required_repo_root read_splice_version all_endpoints head_vars all_static_vars has_flag
  prepare flags opts = do
    guard (has_flag flags) slot_flag_missing
    repo_root ← required_repo_root
    splice_version ← wrap static (read_splice_version setup.machine repo_root)
    eps ← all_endpoints repo_root opts flags
    vars ← head_vars eps splice_version
    more ← all_static_vars repo_root opts eps
    ok (eps, vars ++ more)
