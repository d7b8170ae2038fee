-- ===== src/EnvCommand/Live/Tokens.antt =====
-- The tokens of the second pass of `resolveEnvVars`, each masked before it is sent:
-- cli/cmd/canton-localnet/env.go.
use canton_localnet.Base.{
  ◌≡◌, refl, ap, Bool, true, ◌&&◌, ◌||◌, not, Text, lit, List, [], ◌∷◌, ◌++◌, some, Result, ok, err,
  Has, inr, subst,
}
use canton_localnet.Slot.Resolve.{Endpoints, slot_key}
use canton_localnet.Slot.Api.{Request, mint_token}
use canton_localnet.EnvCommand.{EnvVar}
use canton_localnet.EnvCommand.Snapshot.{EnvOptions, hidden}
use canton_localnet.EnvCommand.Prepare.{EnvError}
use canton_localnet.EnvCommand.Live.{
  Event, masked, called, after, done, World, mask, mask_if, mask_secrets, perform, jwt_vars,
  participant_vars, party_vars, live_slot, live_pass, report_and_call, bearer, ◌>>=◌,
}
use canton_localnet.EnvCommand.Live.Keeps.{
  Before, Keeps, after-Keeps, mask_secrets-Keeps, jwt_vars-Keeps, participant_vars-Keeps,
  party_vars-Keeps, mint-Keeps, live_pass-Keeps,
}
use canton_localnet.EnvCommand.Live.Secrets.{mask_if-masked}

-- A token that a request carries is the value of a masked secret.
unfoldable pub IsKnown : List Event → Request → Type 0
IsKnown t r =
    (token : Text) → bearer r ≡ some token → (v : EnvVar) × (v.value ≡ token) × Has (masked v) t

abbrev jwt_var : Endpoints → Text → EnvVar
jwt_var ep token = hidden (slot_key ep.slot (lit "_JWT")) token

jwt_vars-masked :
    (E : Type 0) (w : World) (report : EnvVar → Bool)
    → w.on_secret ≡ some report
    → (ep : Endpoints) (token : Text) (js : List EnvVar) (t u : List Event)
    → jwt_vars {E = E} w true ep token t ≡ (ok js, u)
    → Has (masked (jwt_var ep token)) u
unfolding jwt_vars mask_if
jwt_vars-masked E w report masks ep token js t u h =
    step (mask w.on_secret (jwt_var ep token) t) refl h
  where
    step :
        (r : Result (EnvError E) (Unit {0}) × List Event)
        → mask {E = E} w.on_secret (jwt_var ep token) t ≡ r
        → after r (λ _. done (jwt_var ep token ∷ [])) ≡ (ok js, u)
        → Has (masked (jwt_var ep token)) u
    step (err f, t') k q = cc
    step (ok tt, t') k q = subst (Has (masked (jwt_var ep token))) (ap (λ r. r.1) q) (
        mask_if-masked E report (jwt_var ep token) true t t' refl
          (subst (λ o. mask {E = E} o (jwt_var ep token) t ≡ (ok tt, t')) masks k))

-- The calls of a turn that carry the token follow its mask.
live_slot-IsKnown :
    (E : Type 0) (w : World) (report : EnvVar → Bool)
    → w.on_secret ≡ some report
    → (opts : EnvOptions) → opts.jwt ≡ true
    → (ep : Endpoints) → Keeps (Before IsKnown) (live_slot {E = E} w opts ep)
unfolding live_slot IsKnown
live_slot-IsKnown E w report masks opts on ep t h =
    after-Keeps E (Before IsKnown) (perform w (λ server. mint_token w.signer server ep) t) _
      (mint-Keeps E w (Before IsKnown) ep (λ r b u q. (λ token c. cc, q)) t h)
      (λ token u q. step token u q (jwt_vars w opts.jwt ep token u) refl)
  where
    step :
        (token : Text) (u : List Event) (q : Before IsKnown u)
        (r : Result (EnvError E) (List EnvVar) × List Event)
        → jwt_vars {E = E} w opts.jwt ep token u ≡ r
        → Before IsKnown
            (after r (λ jwt.
              participant_vars w (opts.jwt && not opts.offline) ep token >>= λ participant.
              party_vars w opts.party ep token >>= λ party. done (jwt ++ (participant ++ party)))).1
    step token u q (err f, v) k =
        subst (Before IsKnown) (ap (λ r. r.1) k)
          (jwt_vars-Keeps E (Before IsKnown) (λ _ _ p. p) w opts.jwt ep token u q)
    step token u q (ok js, v) k =
        (after-Keeps E Known (participant_vars w (opts.jwt && not opts.offline) ep token v) _
          (participant_vars-Keeps E w Known token add (opts.jwt && not opts.offline) ep v
            (base, kept))
          (λ participant x p.
            after-Keeps E Known (party_vars w opts.party ep token x)
              (λ party. done (js ++ (participant ++ party)))
              (party_vars-Keeps E w Known token add opts.party ep x p) (λ _ _ p'. p'))).1
      where
        Known : List Event → Type 0
        Known x = Has (masked (jwt_var ep token)) x × Before IsKnown x

        add :
            (r : Request)
            → bearer r ≡ some token
            → (x : List Event) → Known x
            → Known (called r ∷ x)
        add r b x p = (inr p.0, ((λ tk c. (jwt_var ep token, cc, p.0)), p.1))

        kept : Before IsKnown v
        kept =
            subst (Before IsKnown) (ap (λ r. r.1) k)
              (jwt_vars-Keeps E (Before IsKnown) (λ _ _ p. p) w opts.jwt ep token u q)

        base : Has (masked (jwt_var ep token)) v
        base =
            jwt_vars-masked E w report masks ep token js u v
              (subst (λ o. jwt_vars {E = E} w o ep token u ≡ (ok js, v)) on k)

pub tokens-Before :
    (E : Type 0) (w : World) (report : EnvVar → Bool)
    → w.on_secret ≡ some report
    → (opts : EnvOptions) → opts.jwt ≡ true
    → (eps : List Endpoints) (vars : List EnvVar)
    → Before IsKnown (report_and_call {E = E} w opts eps vars []).1
unfolding report_and_call
tokens-Before E w report masks opts on eps vars =
    after-Keeps E (Before IsKnown) (mask_secrets w.on_secret vars []) _
      (mask_secrets-Keeps E (Before IsKnown) (λ _ _ q. q) w.on_secret vars [] tt)
      (λ _ u q.
        after-Keeps E (Before IsKnown) (live_pass w (opts.jwt || opts.party) opts eps u)
          (λ more. done (vars ++ more))
          (live_pass-Keeps E w (Before IsKnown) opts (live_slot-IsKnown E w report masks opts on)
            (opts.jwt || opts.party) eps u q)
          (λ _ _ p. p))
