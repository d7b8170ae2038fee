-- ===== src/Slot/Resolve/Ci.antt =====
-- `ResolveCI`: the clients of the shared runner's parallel slots.
use canton_localnet.Base.{
  ℤ, pos, negsuc, lookup_key, ◌≡◌, refl, sym, ap, ◌∙◌, arith, ℕ, suc, zero, ◌+◌, ◌-◌, ◌≤◌, Bool,
  true, false, not, ◌&&◌, Text, lit, List, [], ◌∷◌, ◌++◌, Result, ok, ◌>>=◌, ◌>>◌, guard, >>=-eq_ok,
  guard-eq_ok, ok-injective, leb, equal, equal_iff, is_empty, if◌then◌else◌,
}
use canton_localnet.Slot.EnvFile.{Content}
use canton_localnet.Slot.Resolve.Layers.{given, first_of, first_of-env, first_of-file}
use canton_localnet.Slot.Resolve.{
  EnvLookup, Endpoints, ResolveError, unsupported_slot, ci_slot_out_of_range, pick, slot_key,
  auth_key, load_compose_env,
}

pub record CiUser : Type 0 where
  pub client_id : Text
  pub client_secret : Text
  pub user_id : Text

abbrev pub ci_user_count : ℕ
ci_user_count = 4

unfoldable pub ci_user_defaults : List CiUser
unfolding lit
ci_user_defaults =
    record {
      client_id = lit "a-validator-1-ci-1";
      client_secret = lit "VSLk2bzpSPKIY8qGsQuY4uYdkdoccUG6";
      user_id = lit "cfc83af9-a97e-4e5b-85a1-b0c4cc49323c";
    }
    ∷ record {
      client_id = lit "a-validator-1-ci-2";
      client_secret = lit "TdlQDk2xcnLKOcRguN6GyqWUYwa2X0Wn";
      user_id = lit "33f30684-7067-4cd6-8dea-4c3230a69108";
    }
    ∷ record {
      client_id = lit "a-validator-1-ci-3";
      client_secret = lit "Ar8crPYkvmVLgnUM2Jek2wo4UyLBdTLA";
      user_id = lit "432a9ded-d191-4472-acfc-7af32e4124b3";
    }
    ∷ record {
      client_id = lit "a-validator-1-ci-4";
      client_secret = lit "WZmCWc4IWmIEKwWsZ97i7QRIMOUtZWkO";
      user_id = lit "69752f9d-ff24-4f23-a9ec-54fe687e1c1c";
    }
    ∷ []

-- `!(ciSlot < 1 || ciSlot > CIUserCount)`
unfoldable pub ci_in_range : ℤ → Bool
ci_in_range (pos n) = leb 1 n && leb n ci_user_count
ci_in_range (negsuc n) = false

-- A slot in range as a number; the value at the others is never used.
unfoldable pub ci_number : ℤ → ℕ
ci_number (pos n) = n
ci_number (negsuc n) = 0

-- An element of the table, by its index; behind the end is the zero value, which is never used.
unfoldable pub user_at : ℕ → List CiUser → CiUser
user_at i [] = record { client_id = []; client_secret = []; user_id = [] }
user_at zero (u ∷ us) = u
user_at (suc i) (u ∷ us) = user_at i us

-- `ciUserDefaults[ciSlot-1]`
unfoldable pub ci_user : ℕ → CiUser
unfolding user_at ci_user_defaults
ci_user n = user_at (n - 1) ci_user_defaults

-- `"CI_" + ciSlot + suffix`, for a slot of one digit.
unfoldable pub ci_suffix : ℕ → Text → Text
unfolding lit
ci_suffix n suffix = lit "_CI_" ++ ((48 + n) ∷ suffix)

unfoldable pub with_ci_user : EnvLookup → List (Text × Text) → ℕ → Endpoints → Endpoints
unfolding ci_suffix lit
with_ci_user lookup env n out = record out {
  client_id =
      pick lookup env (slot_key out.slot (lit "_CLIENT_ID"))
        (auth_key out.slot (ci_suffix n (lit "_CLIENT_ID"))) (ci_user n).client_id;
  client_secret =
      pick lookup env (slot_key out.slot (lit "_CLIENT_SECRET"))
        (auth_key out.slot (ci_suffix n (lit "_CLIENT_SECRET"))) (ci_user n).client_secret;
  validator_user_id =
      pick lookup env (slot_key out.slot (lit "_VALIDATOR_USER_ID"))
        (auth_key out.slot (ci_suffix n (lit "_USER_ID"))) (ci_user n).user_id;
}

unfoldable pub resolve_ci :
    (Text → Content) → Endpoints → Text → ℤ → EnvLookup → Result ResolveError Endpoints
unfolding equal lit
resolve_ci files out repo_root ci_slot lookup = do
  guard (equal out.slot.canonical (lit "a-validator-1")) (unsupported_slot out.slot.canonical)
  guard (ci_in_range ci_slot) (ci_slot_out_of_range ci_slot)
  compose_env ←
      if not (is_empty repo_root) then load_compose_env files repo_root out.slot else ok []
  ok (with_ci_user lookup compose_env (ci_number ci_slot) out)

resolve_ci-cases :
    (files : Text → Content) (out : Endpoints) (root : Text) (n : ℤ) (lookup : EnvLookup)
    {new : Endpoints}
    → resolve_ci files out root n lookup ≡ ok new
    → (env : List (Text × Text)) × (out.slot.canonical ≡ lit "a-validator-1")
      × (ci_in_range n ≡ true)
      × ((if not (is_empty root) then load_compose_env files root out.slot else ok []) ≡ ok env)
      × (new ≡ with_ci_user lookup env (ci_number n) out)
unfolding resolve_ci
resolve_ci-cases files out root n lookup {new} h =
    let (u, g, h₁) =
      >>=-eq_ok
        (guard (equal out.slot.canonical (lit "a-validator-1"))
          (unsupported_slot out.slot.canonical))
        _ {b = new} h in
    let (v, r, h₂) = >>=-eq_ok (guard (ci_in_range n) (ci_slot_out_of_range n)) _ {b = new} h₁ in
    let (env, e, h₃) =
      >>=-eq_ok (if not (is_empty root) then load_compose_env files root out.slot else ok []) _
        {b = new} h₂ in
    (
      env,
      (equal_iff out.slot.canonical (lit "a-validator-1")).0 (guard-eq_ok _ _ g),
      guard-eq_ok _ _ r,
      e,
      sym (ok-injective _ new h₃),
    )

in_range : (n : ℤ) → ci_in_range n ≡ true → (k : ℕ) × (n ≡ pos k) × (1 ≤ k) × (k ≤ ci_user_count)
unfolding ci_in_range
in_range (pos k) h = (k, refl, ground arith, ground arith)
in_range (negsuc k) h = cc

-- `ResolveCI` succeeds for a-validator-1 and the slots 1 to 4 only, and it changes no endpoint but
-- the client, its secret and the ledger user.
pub resolve_ci_lem :
    (files : Text → Content) (out : Endpoints) (root : Text) (n : ℤ) (lookup : EnvLookup)
    {new : Endpoints}
    → resolve_ci files out root n lookup ≡ ok new
    → (out.slot.canonical ≡ lit "a-validator-1")
      × ((k : ℕ) × (n ≡ pos k) × (1 ≤ k) × (k ≤ ci_user_count))
      × (new ≡ record out {
        client_id = new.client_id;
        client_secret = new.client_secret;
        validator_user_id = new.validator_user_id;
      })
resolve_ci_lem files out root n lookup {new} h =
    let (env, c, r, _, e) = resolve_ci-cases files out root n lookup {new = new} h in
    (c, in_range n r, rw e (unfold with_ci_user in refl))

pick-first_of :
    (lookup : EnvLookup) (env : List (Text × Text)) (env_key compose_key default : Text)
    → pick lookup env env_key compose_key default
      ≡ first_of (given (lookup env_key) ∷ given (lookup_key compose_key env) ∷ []) default
unfolding pick
pick-first_of lookup env env_key compose_key default =
    first_of-env lookup env_key _ default _ (first_of-file env compose_key default)

client_id-ci_user :
    (k : ℕ)
    → 1 ≤ k
    → k ≤ ci_user_count
    → (ci_user k).client_id ≡ lit "a-validator-1-ci-" ++ ((48 + k) ∷ [])
unfolding ci_user user_at ci_user_defaults lit
client_id-ci_user zero low high = absurd (omega (arith, low))
client_id-ci_user (suc zero) low high = refl
client_id-ci_user (suc (suc zero)) low high = refl
client_id-ci_user (suc (suc (suc zero))) low high = refl
client_id-ci_user (suc (suc (suc (suc zero)))) low high = refl
client_id-ci_user (suc (suc (suc (suc (suc k))))) low high = absurd (omega (arith, high))

-- The key of a CI slot's entry in the compose file.
abbrev pub ci_key : Endpoints → ℕ → Text → Text
ci_key out k suffix = auth_key out.slot (lit "_CI_" ++ ((48 + k) ∷ suffix))

-- With a repository root and a compose file that loads, `ResolveCI` for the slot of one number takes the
-- client, its secret and the ledger user from the first layer that has the value: the slot's
-- environment variable, unless it is blank, the compose file's entry of this CI slot, unless it is
-- blank, and the default of this CI slot, where the client is named by the number of the CI slot.
pub resolve_ci-first_of :
    (files : Text → Content) (out : Endpoints) (root : Text) (k : ℕ) (lookup : EnvLookup)
    (env : List (Text × Text)) {new : Endpoints}
    → is_empty root ≡ false
    → load_compose_env files root out.slot ≡ ok env
    → resolve_ci files out root (pos k) lookup ≡ ok new
    → (new.client_id
        ≡ first_of
            (given (lookup (slot_key out.slot (lit "_CLIENT_ID")))
              ∷ given (lookup_key (ci_key out k (lit "_CLIENT_ID")) env)
              ∷ [])
            (lit "a-validator-1-ci-" ++ ((48 + k) ∷ [])))
      × (new.client_secret
          ≡ first_of
              (given (lookup (slot_key out.slot (lit "_CLIENT_SECRET")))
                ∷ given (lookup_key (ci_key out k (lit "_CLIENT_SECRET")) env)
                ∷ [])
              (ci_user k).client_secret)
      × (new.validator_user_id
          ≡ first_of
              (given (lookup (slot_key out.slot (lit "_VALIDATOR_USER_ID")))
                ∷ given (lookup_key (ci_key out k (lit "_USER_ID")) env)
                ∷ [])
              (ci_user k).user_id)
unfolding with_ci_user ci_suffix ci_number
resolve_ci-first_of files out root k lookup env {new} some_root loaded h =
    let (found, _, r, e, q) = resolve_ci-cases files out root (pos k) lookup {new = new} h in
    let (j, same, low, high) = in_range (pos k) r in
    let number : j ≡ k = ground (arith, same) in
    let file : found ≡ env = ok-injective found env (sym (rw some_root at e) ∙ loaded) in
    rw (q, file)
      (
        pick-first_of lookup env _ _ _
            ∙ ap (first_of _)
                (client_id-ci_user k (omega (arith, low, number)) (omega (arith, high, number))),
        pick-first_of lookup env _ _ _,
        pick-first_of lookup env _ _ _,
      )
