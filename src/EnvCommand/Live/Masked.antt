-- ===== src/EnvCommand/Live/Masked.antt =====
-- The order of the masks and the calls of `resolveEnvVars`: cli/cmd/canton-localnet/env.go.
use canton_localnet.Base.{
  ◌≡◌, refl, Bool, true, false, ◌||◌, Text, List, [], ◌∷◌, ◌++◌, some, ok, Has, subst,
}
use canton_localnet.Slot.Resolve.{Endpoints}
use canton_localnet.Slot.Api.{Request}
use canton_localnet.EnvCommand.{EnvVar}
use canton_localnet.EnvCommand.Snapshot.{EnvOptions}
use canton_localnet.EnvCommand.Prepare.{Setup, prepare}
use canton_localnet.EnvCommand.Live.{
  Event, masked, called, done, World, mask_secrets, live_pass, report_and_call, after_prepare,
  resolve_env_vars, bearer,
}
use canton_localnet.EnvCommand.Live.Keeps.{
  Before, Before-split, Keeps, after-Keeps, mask_secrets-Keeps, live_pass-Keeps, live_slot-Keeps,
}
use canton_localnet.EnvCommand.Live.Secrets.{IsMasked, secrets-Before}
use canton_localnet.EnvCommand.Live.Tokens.{IsKnown, tokens-Before}

calls-Before :
    (E : Type 0) (w : World) (opts : EnvOptions) (eps : List Endpoints) (vars : List EnvVar)
    → Before (λ t r. (opts.jwt || opts.party) ≡ true) (report_and_call {E = E} w opts eps vars []).1
unfolding report_and_call
calls-Before E w opts eps vars =
    after-Keeps E Live (mask_secrets w.on_secret vars []) _
      (mask_secrets-Keeps E Live (λ _ _ q. q) w.on_secret vars [] tt)
      (λ _ u q.
        after-Keeps E Live (live_pass w (opts.jwt || opts.party) opts eps u)
          (λ more. done (vars ++ more)) (live (opts.jwt || opts.party) refl u q) (λ _ _ p. p))
  where
    Live : List Event → Type 0
    Live = Before (λ t r. (opts.jwt || opts.party) ≡ true)

    live : (b : Bool) → (opts.jwt || opts.party) ≡ b → Keeps Live (live_pass {E = E} w b opts eps)
    live false e u q = q
    live true e u q =
        live_pass-Keeps E w Live opts (live_slot-Keeps E w Live (λ _ _ q. q) (λ _ _ q. (e, q)) opts)
          true eps u q

-- What a run that passes `prepare` satisfies before each of its calls.
before_call :
    {E : Type 0} (P : List Event → Request → Type 0) (w : World) (setup : Setup E)
    (flags : List Text) (opts : EnvOptions) (eps : List Endpoints) (vars : List EnvVar)
    → prepare setup flags opts ≡ ok (eps, vars)
    → Before P (report_and_call {E = E} w opts eps vars []).1
    → (later earlier : List Event) (r : Request)
    → (resolve_env_vars w setup flags opts).1 ≡ later ++ called r ∷ earlier
    → P earlier r
unfolding resolve_env_vars after_prepare
before_call P w setup flags opts eps vars p b later earlier r e =
    Before-split P later earlier r (subst (Before P) (rw p at e) b)

-- With `on_secret` set, and where its first pass gives the variables `vars`, the command sends a
-- request only with --jwt or --party, and only after every secret of `vars` has been reported.
pub secret-before_call :
    {E : Type 0} (w : World) (report : EnvVar → Bool) (setup : Setup E) (flags : List Text)
    (opts : EnvOptions) (eps : List Endpoints) (vars : List EnvVar) (later earlier : List Event)
    (r : Request) (v : EnvVar)
    → w.on_secret ≡ some report
    → prepare setup flags opts ≡ ok (eps, vars)
    → (resolve_env_vars w setup flags opts).1 ≡ later ++ called r ∷ earlier
    → Has v vars
    → v.secret ≡ true
    → ((opts.jwt || opts.party) ≡ true) × Has (masked v) earlier
secret-before_call {E} w report setup flags opts eps vars later earlier r v masks p e h s = (
  before_call (λ t q. (opts.jwt || opts.party) ≡ true) w setup flags opts eps vars p
      (calls-Before E w opts eps vars) later earlier r e,
  before_call (λ t q. IsMasked vars t) w setup flags opts eps vars p
      (secrets-Before E w report masks opts eps vars) later earlier r e v h s,
)

-- With --jwt and `on_secret` set, a request that carries a bearer token is sent only after the token
-- has been reported as a secret, where the first pass succeeds.
pub token-before_call :
    {E : Type 0} (w : World) (report : EnvVar → Bool) (setup : Setup E) (flags : List Text)
    (opts : EnvOptions) (eps : List Endpoints) (vars : List EnvVar) (later earlier : List Event)
    (r : Request) (token : Text)
    → w.on_secret ≡ some report
    → opts.jwt ≡ true
    → prepare setup flags opts ≡ ok (eps, vars)
    → (resolve_env_vars w setup flags opts).1 ≡ later ++ called r ∷ earlier
    → bearer r ≡ some token
    → (v : EnvVar) × (v.value ≡ token) × Has (masked v) earlier
unfolding IsKnown
token-before_call {E} w report setup flags opts eps vars later earlier r token masks on p e b =
    before_call IsKnown w setup flags opts eps vars p
      (tokens-Before E w report masks opts on eps vars) later earlier r e token b
