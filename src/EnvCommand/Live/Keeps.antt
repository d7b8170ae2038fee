-- ===== src/EnvCommand/Live/Keeps.antt =====
-- Properties of the events that the runs of `resolveEnvVars` keep: cli/cmd/canton-localnet/env.go.
use canton_localnet.Base.{
  ◌≡◌, refl, Bool, true, false, ◌&&◌, not, Text, List, [], ◌∷◌, ◌++◌, map, Option, none, some,
  Result, ok, err, All, inl, inr, Bool-cases, is_empty, All-map, trim_space,
}
use canton_localnet.Slot.{AuthKind, oauth2, hs256, other}
use canton_localnet.Slot.Resolve.{Endpoints}
use canton_localnet.Slot.Api.{
  Request, Reply, Call, Signer, mint_by, mint_token, mint_oauth2, fetch_participant_id,
  fetch_primary_party,
}
use canton_localnet.EnvCommand.{EnvVar}
use canton_localnet.EnvCommand.Snapshot.{EnvOptions}
use canton_localnet.EnvCommand.Prepare.{EnvError}
use canton_localnet.EnvCommand.Live.{
  Event, masked, called, Run, after, done, World, mask, mask_if, mask_secrets, perform, jwt_vars,
  participant_vars, party_vars, live_slot, live_slots, live_pass, bearer, ◌>>=◌,
}

-- What the events before each call satisfy.
abbrev pub Before : (List Event → Request → Type 0) → List Event → Type 0
Before P [] = Unit
Before P (masked v ∷ t) = Before P t
Before P (called r ∷ t) = P t r × Before P t

pub Before-split :
    (P : List Event → Request → Type 0) (later earlier : List Event) (r : Request)
    → Before P (later ++ called r ∷ earlier)
    → P earlier r
Before-split P [] earlier r h = h.0
Before-split P (masked v ∷ later) earlier r h = Before-split P later earlier r h
Before-split P (called q ∷ later) earlier r h = Before-split P later earlier r h.1

-- A run from events with the property ends in events with it.
abbrev pub Keeps : {E A : Type 0} → (List Event → Type 0) → Run E A → Type 0
Keeps Q m = (t : List Event) → Q t → Q (m t).1

module _ (E : Type 0) (Q : List Event → Type 0) where
  pub after-Keeps :
      {A B : Type 0} (r : Result (EnvError E) A × List Event) (f : A → Run E B)
      → Q r.1
      → ((a : A) → Keeps Q (f a))
      → Q (after r f).1
  after-Keeps (ok a, t) f h k = k a t h
  after-Keeps (err e, t) f h k = h

  module _ (add_mask : (v : EnvVar) (t : List Event) → Q t → Q (masked v ∷ t)) where
    pub mask-Keeps :
        (report : Option (EnvVar → Bool)) (v : EnvVar) → Keeps Q (mask {E = E} report v)
    unfolding mask
    mask-Keeps none v t h = h
    mask-Keeps (some report) v t h = elim (Bool-cases (report v)) [
      | inl e ↦ rw e (add_mask v t h)
      | inr e ↦ rw e h
    ]

    pub mask_secrets-Keeps :
        (report : Option (EnvVar → Bool)) (vars : List EnvVar)
        → Keeps Q (mask_secrets {E = E} report vars)
    unfolding mask_secrets mask_if
    mask_secrets-Keeps report [] t h = h
    mask_secrets-Keeps report (v ∷ vars) t h =
        after-Keeps (mask_if v.secret report v t) (λ _. mask_secrets report vars) (one v.secret t h)
          (λ _. mask_secrets-Keeps report vars)
      where
        one : (b : Bool) → Keeps Q (mask_if {E = E} b report v)
        one true u q = mask-Keeps report v u q
        one false u q = q

    pub jwt_vars-Keeps :
        (w : World) (b : Bool) (ep : Endpoints) (token : Text)
        → Keeps Q (jwt_vars {E = E} w b ep token)
    unfolding jwt_vars
    jwt_vars-Keeps w false ep token t h = h
    jwt_vars-Keeps w true ep token t h =
        after-Keeps (mask w.on_secret _ t) (λ _. done _) (mask-Keeps w.on_secret _ t h) (λ _ u q. q)

-- Requests whose adding keeps the property.
called_all :
    (Q : List Event → Type 0) (rs : List Request) (t : List Event)
    → All (λ r. (u : List Event) → Q u → Q (called r ∷ u)) rs
    → Q t
    → Q (map called rs ++ t)
called_all Q [] t k h = h
called_all Q (r ∷ rs) t k h = k.0 (map called rs ++ t) (called_all Q rs t k.1 h)

-- A mint requests no bearer, and the two lookups request with the token.
mint_token-bearer :
    (signer : Signer) (server : Request → Reply) (ep : Endpoints)
    → All (λ r. bearer r ≡ none) (mint_token signer server ep).1
unfolding mint_token mint_by mint_oauth2 bearer
mint_token-bearer signer server ep = by_kind ep.slot.auth_kind
  where
    by_kind : (kind : AuthKind) → All (λ r. bearer r ≡ none) (mint_by kind signer server ep).1
    by_kind hs256 = tt
    by_kind (other kind) = tt
    by_kind oauth2 = elim (Bool-cases (is_empty ep.token_url_host)) [
      | inl e ↦ rw e tt
      | inr f ↦ elim (Bool-cases (is_empty ep.client_secret)) [
        | inl e ↦ rw (f, e) tt
        | inr g ↦ rw (f, g) (refl, tt)
      ]
    ]

fetch_participant_id-bearer :
    (server : Request → Reply) (ep : Endpoints) (token : Text)
    → All (λ r. bearer r ≡ some token) (fetch_participant_id server ep token).1
unfolding fetch_participant_id bearer
fetch_participant_id-bearer server ep token = (refl, tt)

fetch_primary_party-bearer :
    (server : Request → Reply) (ep : Endpoints) (token : Text)
    → All (λ r. bearer r ≡ some token) (fetch_primary_party server ep token).1
unfolding fetch_primary_party bearer trim_space
fetch_primary_party-bearer server ep token =
    elim (Bool-cases (is_empty (trim_space ep.validator_user_id))) [
      | inl e ↦ rw e tt
      | inr f ↦ rw f (refl, tt)
    ]

module _ (E : Type 0) (w : World) (Q : List Event → Type 0) (token : Text)
    (add_call : (r : Request)
      → bearer r ≡ some token
      → (u : List Event) → Q u
      → Q (called r ∷ u)) where
  lookup-Keeps :
      {A : Type 0} (c : (Request → Reply) → Call A)
      → ((server : Request → Reply) → All (λ r. bearer r ≡ some token) (c server).1)
      → Keeps Q (perform {E = E} w c)
  unfolding perform
  lookup-Keeps c b t h =
      called_all Q (c (w.server t)).1 t (All-map add_call (c (w.server t)).1 (b (w.server t))) h

  pub participant_vars-Keeps :
      (b : Bool) (ep : Endpoints) → Keeps Q (participant_vars {E = E} w b ep token)
  unfolding participant_vars
  participant_vars-Keeps false ep t h = h
  participant_vars-Keeps true ep t h =
      after-Keeps E Q (perform w (λ server. fetch_participant_id server ep token) t) (λ _. done _)
        (lookup-Keeps (λ server. fetch_participant_id server ep token)
          (λ server. fetch_participant_id-bearer server ep token) t h)
        (λ _ u q. q)

  pub party_vars-Keeps : (b : Bool) (ep : Endpoints) → Keeps Q (party_vars {E = E} w b ep token)
  unfolding party_vars
  party_vars-Keeps false ep t h = h
  party_vars-Keeps true ep t h =
      after-Keeps E Q (perform w (λ server. fetch_primary_party server ep token) t) (λ _. done _)
        (lookup-Keeps (λ server. fetch_primary_party server ep token)
          (λ server. fetch_primary_party-bearer server ep token) t h)
        (λ _ u q. q)

-- A call that requests no bearer.
pub mint-Keeps :
    (E : Type 0) (w : World) (Q : List Event → Type 0) (ep : Endpoints)
    → ((r : Request) → bearer r ≡ none → (u : List Event) → Q u → Q (called r ∷ u))
    → Keeps Q (perform {E = E} w (λ server. mint_token w.signer server ep))
unfolding perform
mint-Keeps E w Q ep add t h =
    called_all Q (mint_token w.signer (w.server t) ep).1 t
      (All-map add (mint_token w.signer (w.server t) ep).1
        (mint_token-bearer w.signer (w.server t) ep))
      h

-- The loop keeps what each turn keeps.
pub live_slots-Keeps :
    (E : Type 0) (w : World) (Q : List Event → Type 0) (opts : EnvOptions)
    → ((ep : Endpoints) → Keeps Q (live_slot {E = E} w opts ep))
    → (eps : List Endpoints) → Keeps Q (live_slots {E = E} w opts eps)
unfolding live_slots
live_slots-Keeps E w Q opts k [] t h = h
live_slots-Keeps E w Q opts k (ep ∷ eps) t h =
    after-Keeps E Q (live_slot w opts ep t)
      (λ vars. live_slots w opts eps >>= λ rest. done (vars ++ rest)) (k ep t h)
      (λ vars u q.
        after-Keeps E Q (live_slots w opts eps u) (λ rest. done (vars ++ rest))
          (live_slots-Keeps E w Q opts k eps u q) (λ _ v r. r))

pub live_pass-Keeps :
    (E : Type 0) (w : World) (Q : List Event → Type 0) (opts : EnvOptions)
    → ((ep : Endpoints) → Keeps Q (live_slot {E = E} w opts ep))
    → (b : Bool) (eps : List Endpoints) → Keeps Q (live_pass {E = E} w b opts eps)
unfolding live_pass
live_pass-Keeps E w Q opts k false eps t h = h
live_pass-Keeps E w Q opts k true eps t h = live_slots-Keeps E w Q opts k eps t h

-- A turn with every call allowed.
pub live_slot-Keeps :
    (E : Type 0) (w : World) (Q : List Event → Type 0)
    → ((v : EnvVar) (t : List Event) → Q t → Q (masked v ∷ t))
    → ((r : Request) (t : List Event) → Q t → Q (called r ∷ t))
    → (opts : EnvOptions) (ep : Endpoints) → Keeps Q (live_slot {E = E} w opts ep)
unfolding live_slot
live_slot-Keeps E w Q add_mask add_call opts ep t h =
    after-Keeps E Q (perform w (λ server. mint_token w.signer server ep) t) _
      (mint-Keeps E w Q ep (λ r b. add_call r) t h)
      (λ token u q.
        after-Keeps E Q (jwt_vars w opts.jwt ep token u) _
          (jwt_vars-Keeps E Q add_mask w opts.jwt ep token u q)
          (λ jwt u' q'.
            after-Keeps E Q (participant_vars w (opts.jwt && not opts.offline) ep token u') _
              (participant_vars-Keeps E w Q token (λ r b. add_call r) (opts.jwt && not opts.offline)
                ep u' q')
              (λ participant v r.
                after-Keeps E Q (party_vars w opts.party ep token v)
                  (λ party. done (jwt ++ (participant ++ party)))
                  (party_vars-Keeps E w Q token (λ r b. add_call r) opts.party ep v r)
                  (λ _ v' r'. r'))))
