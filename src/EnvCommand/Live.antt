-- ===== src/EnvCommand/Live.antt =====
-- The second pass of `resolveEnvVars`: cli/cmd/canton-localnet/env.go. What the command does is the
-- list of its events, the newest first. The participant and the token endpoint answer by the events.
pub mod Keeps
pub mod Secrets
pub mod Tokens
pub mod Masked
use canton_localnet.Base.{
  ℕ, Bool, true, false, not, ◌&&◌, ◌||◌, Text, lit, List, [], ◌∷◌, ◌++◌, map, Option, none, some,
  Result, ok, err, wrap, if◌then◌else◌,
}
use canton_localnet.Slot.Resolve.{Endpoints, slot_key}
use canton_localnet.Slot.Api.{
  Request, token_request, query, query_user, Reply, Call, Signer, mint_token, fetch_participant_id,
  fetch_primary_party,
}
use canton_localnet.EnvCommand.{EnvVar}
use canton_localnet.EnvCommand.Snapshot.{EnvOptions, plain, hidden}
use canton_localnet.EnvCommand.Prepare.{Setup, EnvError, network, masking, prepare}

-- A secret reported to `onSecret`, or a request sent.
pub data Event : Type 0 where
  masked : EnvVar → Event
  called : Request → Event

abbrev pub Run : Type 0 → Type 0 → Type 0
Run E A = List Event → Result (EnvError E) A × List Event

abbrev pub after :
    {E A B : Type 0}
    → Result (EnvError E) A × List Event
    → (A → Run E B)
    → Result (EnvError E) B × List Event
after (ok a, t) f = f a t
after (err e, t) f = (err e, t)

infixl 5 ◌>>=◌ ◌>>◌
abbrev pub ◌>>=◌ : {E A B : Type 0} → Run E A → (A → Run E B) → Run E B
m >>= f = λ t. after (m t) f

abbrev pub ◌>>◌ : {E B : Type 0} → Run E (Unit {0}) → Run E B → Run E B
m >> k = m >>= λ _. k

abbrev pub done : {E A : Type 0} → A → Run E A
done a = λ t. (ok a, t)

-- What the calls need: the callback, if any, which fails where its writing fails, the signer of
-- tokens, and the servers.
pub record World : Type 0 where
  pub on_secret : Option (EnvVar → Bool)
  pub signer : Signer
  pub server : List Event → Request → Reply

-- `if onSecret != nil { if err := onSecret(v); err != nil { return nil, err } }`
unfoldable pub mask : {E : Type 0} → Option (EnvVar → Bool) → EnvVar → Run E (Unit {0})
mask none v = done tt
mask (some report) v = λ t. if report v then (ok tt, masked v ∷ t) else (err masking, t)

unfoldable pub mask_if : {E : Type 0} → Bool → Option (EnvVar → Bool) → EnvVar → Run E (Unit {0})
unfolding mask
mask_if true report v = mask report v
mask_if false report v = done tt

unfoldable pub mask_secrets : {E : Type 0} → Option (EnvVar → Bool) → List EnvVar → Run E (Unit {0})
unfolding mask_if
mask_secrets report [] = done tt
mask_secrets report (v ∷ vars) = do mask_if v.secret report v; mask_secrets report vars

-- A call, with its request added to the events.
unfoldable pub perform : {E A : Type 0} → World → ((Request → Reply) → Call A) → Run E A
perform w c = λ t. let r = c (w.server t) in (wrap network r.0, map called r.1 ++ t)

module _ {E : Type 0} (w : World) where
  unfoldable pub jwt_vars : Bool → Endpoints → Text → Run E (List EnvVar)
  unfolding mask slot_key lit
  jwt_vars false ep token = done []
  jwt_vars true ep token = do
    mask w.on_secret (hidden (slot_key ep.slot (lit "_JWT")) token)
    done (hidden (slot_key ep.slot (lit "_JWT")) token ∷ [])

  unfoldable pub participant_vars : Bool → Endpoints → Text → Run E (List EnvVar)
  unfolding perform fetch_participant_id slot_key lit
  participant_vars false ep token = done []
  participant_vars true ep token = do
    participant ← perform w (λ server. fetch_participant_id server ep token)
    done (plain (slot_key ep.slot (lit "_PARTICIPANT_ID")) participant ∷ [])

  unfoldable pub party_vars : Bool → Endpoints → Text → Run E (List EnvVar)
  unfolding perform fetch_primary_party slot_key lit
  party_vars false ep token = done []
  party_vars true ep token = do
    party ← perform w (λ server. fetch_primary_party server ep token)
    done (plain (slot_key ep.slot (lit "_PARTY")) party ∷ [])

  -- One turn of the loop.
  unfoldable pub live_slot : EnvOptions → Endpoints → Run E (List EnvVar)
  unfolding perform mint_token jwt_vars participant_vars party_vars
  live_slot opts ep = do
    token ← perform w (λ server. mint_token w.signer server ep)
    jwt ← jwt_vars opts.jwt ep token
    participant ← participant_vars (opts.jwt && not opts.offline) ep token
    party ← party_vars opts.party ep token
    done (jwt ++ (participant ++ party))

  unfoldable pub live_slots : EnvOptions → List Endpoints → Run E (List EnvVar)
  unfolding live_slot
  live_slots opts [] = done []
  live_slots opts (ep ∷ eps) = do
    vars ← live_slot opts ep
    rest ← live_slots opts eps
    done (vars ++ rest)

  unfoldable pub live_pass : Bool → EnvOptions → List Endpoints → Run E (List EnvVar)
  unfolding live_slots
  live_pass false opts eps = done []
  live_pass true opts eps = live_slots opts eps

  -- What follows the first pass.
  unfoldable pub report_and_call : EnvOptions → List Endpoints → List EnvVar → Run E (List EnvVar)
  unfolding mask_secrets live_pass
  report_and_call opts eps vars = do
    mask_secrets w.on_secret vars
    more ← live_pass (opts.jwt || opts.party) opts eps
    done (vars ++ more)

  unfoldable pub after_prepare :
      Result (EnvError E) (List Endpoints × List EnvVar)
      → EnvOptions
      → Result (EnvError E) (List EnvVar) × List Event
  unfolding report_and_call
  after_prepare (err e) opts = (err e, [])
  after_prepare (ok (eps, vars)) opts = report_and_call opts eps vars []

  -- `resolveEnvVars`
  unfoldable pub resolve_env_vars :
      Setup E → List Text → EnvOptions → Result (EnvError E) (List EnvVar) × List Event
  unfolding after_prepare prepare
  resolve_env_vars setup flags opts = after_prepare (prepare setup flags opts) opts

-- The bearer token that a request carries.
unfoldable pub bearer : Request → Option Text
bearer (token_request host form) = none
bearer (query address token) = some token
bearer (query_user address user token) = some token
