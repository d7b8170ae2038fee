-- ===== src/AuthCommand/Precedence.antt =====
-- The layers of an endpoint's value: `applyYAMLOverrides` over `Resolve`.
use canton_localnet.Base.{
  ◌≡◌, refl, sym, ap, ◌∙◌, ◌∷◌, Option, lookup_key, Text, lit, List, [], ◌++◌, ok, >>=-eq_ok,
  ok-injective, if◌then◌else◌, arith,
}
use canton_localnet.Slot.{Slot, AuthKind, oauth2, hs256, other}
use canton_localnet.Slot.EnvFile.{Content}
use canton_localnet.Slot.Resolve.{
  Endpoints, EnvLookup, resolve, compose_env_of, with_auth, with_oauth2, base_endpoints, env_or,
  env_is_set, value_or_zero, pick, slot_key, auth_key,
}
use canton_localnet.Slot.Resolve.Layers.{given, not_empty, first_of, first_of-file}
use canton_localnet.Config.{Validator}
use canton_localnet.AuthCommand.{override, overrides}

-- An override between the environment and the layers below it.
first_of-override :
    (lookup : EnvLookup) (key value below default : Text) (layers : List (Option Text))
    → below ≡ first_of layers default
    → (if overrides lookup value key then value else env_or lookup key below)
      ≡ first_of (given (lookup key) ∷ not_empty value ∷ layers) default
unfolding overrides env_or env_is_set value_or_zero given first_of not_empty
first_of-override lookup key [] below default layers h = ground arith
first_of-override lookup key (c ∷ value) below default layers h = ground arith

with_auth-oauth2 :
    (k : AuthKind) (s : Slot) (lookup : EnvLookup) (env : List (Text × Text)) (base out : Endpoints)
    → k ≡ oauth2
    → with_auth k s lookup env base ≡ ok out
    → out ≡ with_oauth2 s lookup env base
unfolding with_auth
with_auth-oauth2 oauth2 s lookup env base out k h = sym (ok-injective _ out h)
with_auth-oauth2 hs256 s lookup env base out k h = cc
with_auth-oauth2 (other t) s lookup env base out k h = cc

resolved-oauth2 :
    (files : Text → Content) (s : Slot) (root : Text) (lookup : EnvLookup)
    (env : List (Text × Text)) {ep : Endpoints}
    → s.auth_kind ≡ oauth2
    → compose_env_of files root s ≡ ok env
    → resolve files s root lookup ≡ ok ep
    → ep ≡ record (with_oauth2 s lookup env (base_endpoints s lookup)) {
      party_hint = env_or lookup (slot_key s (lit "_PARTY_HINT")) s.canonical;
    }
unfolding resolve
resolved-oauth2 files s root lookup env {ep} k c h =
    let (found, c', h₁) = >>=-eq_ok (compose_env_of files root s) _ {b = ep} h in
    let (out, a, h₂) =
      >>=-eq_ok (with_auth s.auth_kind s lookup found (base_endpoints s lookup)) _ {b = ep} h₁ in
    let same : env ≡ found = ok-injective env found (sym c ∙ c') in
    let o = with_auth-oauth2 s.auth_kind s lookup found (base_endpoints s lookup) out k a in
    sym (ok-injective _ ep h₂)
    ∙ ap
        (λ (x : Endpoints). record x {
          party_hint = env_or lookup (slot_key s (lit "_PARTY_HINT")) s.canonical;
        })
        (o ∙ ap (λ m. with_oauth2 s lookup m (base_endpoints s lookup)) (sym same))

-- For a slot of the OAuth2 kind, the party hint, the client and its secret come from the first layer
-- that has a value: the slot's environment variable, unless it is blank, the configuration file,
-- unless its entry is empty, the compose file's entry, unless it is blank, and the default. The
-- party hint has no layer in the compose file.
pub override_lem :
    (files : Text → Content) (s : Slot) (root : Text) (lookup : EnvLookup) (v : Validator)
    (env : List (Text × Text)) {ep : Endpoints}
    → s.auth_kind ≡ oauth2
    → compose_env_of files root s ≡ ok env
    → resolve files s root lookup ≡ ok ep
    → ((override lookup s v ep).party_hint
        ≡ first_of
            (given (lookup (slot_key s (lit "_PARTY_HINT"))) ∷ not_empty v.party_hint ∷ [])
            s.canonical)
      × ((override lookup s v ep).client_id
          ≡ first_of
              (given (lookup (slot_key s (lit "_CLIENT_ID")))
                ∷ not_empty v.auth.client_id
                ∷ given (lookup_key (auth_key s (lit "_VALIDATOR_CLIENT_ID")) env)
                ∷ [])
              (s.canonical ++ lit "-validator"))
      × ((override lookup s v ep).client_secret
          ≡ first_of
              (given (lookup (slot_key s (lit "_CLIENT_SECRET")))
                ∷ not_empty v.auth.client_secret
                ∷ given (lookup_key (auth_key s (lit "_VALIDATOR_CLIENT_SECRET")) env)
                ∷ [])
              [])
unfolding override with_oauth2 pick
override_lem files s root lookup v env {ep} k c h =
    rw (resolved-oauth2 files s root lookup env {ep = ep} k c h) (
      first_of-override lookup (slot_key s (lit "_PARTY_HINT")) v.party_hint s.canonical s.canonical
          [] (unfold first_of in refl),
      first_of-override lookup (slot_key s (lit "_CLIENT_ID")) v.auth.client_id _
          (s.canonical ++ lit "-validator") _
          (first_of-file env (auth_key s (lit "_VALIDATOR_CLIENT_ID"))
            (s.canonical ++ lit "-validator")),
      first_of-override lookup (slot_key s (lit "_CLIENT_SECRET")) v.auth.client_secret _ [] _
          (first_of-file env (auth_key s (lit "_VALIDATOR_CLIENT_SECRET")) []),
    )
