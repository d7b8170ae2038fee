-- ===== src/Slot/Resolve.antt =====
-- The endpoints of a slot: cli/internal/slot/resolve.go.
pub mod Blank
pub mod Ci
pub mod Layers
use canton_localnet.Base.{
  ℤ, Bool, true, false, not, ◌&&◌, ◌||◌, Text, String, lit, List, [], ◌∷◌, ◌++◌, Option, none, some,
  Result, ok, err, ◌>>=◌, equal, is_empty, trim_space, lookup_key, if◌then◌else◌,
}
use canton_localnet.Base.Files.{join_path}
use canton_localnet.Slot.{
  Slot, AuthKind, oauth2, hs256, other, env_prefix, json_ledger_port, ledger_grpc_port,
  admin_grpc_port, validator_admin_port,
}
use canton_localnet.Slot.EnvFile.{
  Content, EnvFileError, absent, unreadable, not_key_value, read_env_file,
}

pub record Endpoints : Type 0 where
  pub slot : Slot
  pub host : Text
  pub json_ledger_api_url : Text
  pub ledger_grpc_url : Text
  pub admin_grpc_url : Text
  pub validator_admin_url : Text
  pub keycloak_host_base : Text
  pub keycloak_internal_base : Text
  pub token_url_host : Text
  pub token_url_internal : Text
  pub audience : Text
  pub scope : Text
  pub client_id : Text
  pub client_secret : Text
  pub hs256_secret : Text
  pub hs256_user : Text
  pub party_hint : Text
  pub validator_user_id : Text
  pub wallet_client_id : Text
  pub wallet_user : Text
  pub wallet_password : Text

pub data ResolveError : Type 0 where
  reading : EnvFileError → ResolveError
  unknown_auth_kind : Text → ResolveError
  unsupported_slot : Text → ResolveError
  ci_slot_out_of_range : ℤ → ResolveError

-- `os.LookupEnv`
abbrev pub EnvLookup : Type 0
EnvLookup = Text → Option Text

-- `EnvIsSet`
unfoldable pub env_is_set : EnvLookup → Text → Bool
unfolding trim_space
env_is_set lookup key = elim (lookup key) [ none ↦ false | some v ↦ not (is_empty (trim_space v)) ]

-- `v, _ := lookup(key)`
unfoldable pub value_or_zero : Option Text → Text
value_or_zero none = []
value_or_zero (some v) = v

unfoldable pub env_or : EnvLookup → Text → Text → Text
unfolding env_is_set value_or_zero
env_or lookup key fallback = if env_is_set lookup key then value_or_zero (lookup key) else fallback

-- The compose file's value, if it has one that is not blank.
unfoldable pub file_or : List (Text × Text) → Text → Text → Text
unfolding lookup_key trim_space
file_or compose_env key fallback = elim (lookup_key key compose_env) [
  | none ↦ fallback
  | some v ↦ if not (is_empty (trim_space v)) then v else fallback
]

unfoldable pub pick : EnvLookup → List (Text × Text) → Text → Text → Text → Text
unfolding env_or file_or
pick lookup compose_env env_key compose_key fallback =
    env_or lookup env_key (file_or compose_env compose_key fallback)

-- `"CANTON_LOCALNET_" + name`
unfoldable pub localnet_key : Text → Text
unfolding lit
localnet_key name = lit "CANTON_LOCALNET_" ++ name

-- `"CANTON_LOCALNET_" + s.EnvPrefix() + suffix`
unfoldable pub slot_key : Slot → Text → Text
unfolding localnet_key
slot_key s suffix = localnet_key (env_prefix s ++ suffix)

-- `"AUTH_" + s.EnvPrefix() + suffix`
unfoldable pub auth_key : Slot → Text → Text
unfolding lit
auth_key s suffix = lit "AUTH_" ++ (env_prefix s ++ suffix)

unfoldable pub compose_env_path : Text → Slot → Text
unfolding lit join_path
compose_env_path repo_root s =
    join_path
      (join_path
        (join_path
          (join_path
            (join_path (join_path (join_path repo_root (lit "compose")) (lit "modules"))
              (lit "keycloak"))
            (lit "env"))
          s.canonical)
        (lit "on"))
      (lit "oauth2.env")

-- A missing file is an empty one.
unfoldable pub optional_file :
    Result EnvFileError (List (Text × Text)) → Result ResolveError (List (Text × Text))
optional_file (ok m) = ok m
optional_file (err absent) = ok []
optional_file (err e) = err (reading e)

unfoldable pub load_compose_env :
    (Text → Content) → Text → Slot → Result ResolveError (List (Text × Text))
unfolding read_env_file
load_compose_env files repo_root s =
    optional_file (read_env_file (files (compose_env_path repo_root s)))

abbrev pub is_oauth2 : AuthKind → Bool
is_oauth2 oauth2 = true
is_oauth2 _ = false

unfoldable pub compose_env_of :
    (Text → Content) → Text → Slot → Result ResolveError (List (Text × Text))
compose_env_of files repo_root s =
    if not (is_empty repo_root) && is_oauth2 s.auth_kind
    then load_compose_env files repo_root s
    else ok []

unfoldable pub http : Text → Text → Text
unfolding lit
http host port = lit "http://" ++ (host ++ (lit ":" ++ port))

unfoldable pub host_port : Text → Text → Text
unfolding lit
host_port host port = host ++ (lit ":" ++ port)

unfoldable pub token_url : Text → Text → Text
unfolding lit
token_url base realm = base ++ (lit "/realms/" ++ (realm ++ lit "/protocol/openid-connect/token"))

-- The fields that `Resolve` fills for every kind of slot; the others are empty so far.
unfoldable pub base_endpoints : Slot → EnvLookup → Endpoints
unfolding env_or localnet_key slot_key lit
base_endpoints s lookup =
    let host = env_or lookup (localnet_key (lit "HOST")) (lit "localhost") in
    let keycloak_port = env_or lookup (localnet_key (lit "KEYCLOAK_PORT")) (lit "8082") in
    let internal_host =
      env_or lookup (localnet_key (lit "KEYCLOAK_INTERNAL_HOST")) (lit "nginx-keycloak") in
    let keycloak_host = env_or lookup (localnet_key (lit "KEYCLOAK_HOST")) host in
    record {
      slot = s;
      host = host;
      json_ledger_api_url =
          env_or lookup (slot_key s (lit "_JSON_API_URL"))
            (http host (env_or lookup (slot_key s (lit "_JSON_PORT")) (json_ledger_port s)));
      ledger_grpc_url = host_port host (ledger_grpc_port s);
      admin_grpc_url = host_port host (admin_grpc_port s);
      validator_admin_url = host_port host (validator_admin_port s);
      keycloak_host_base = http keycloak_host keycloak_port;
      keycloak_internal_base = http internal_host keycloak_port;
      token_url_host = [];
      token_url_internal = [];
      audience =
          env_or lookup (slot_key s (lit "_AUDIENCE"))
            (env_or lookup (localnet_key (lit "AUDIENCE")) (lit "https://canton.network.global"));
      scope =
          env_or lookup (slot_key s (lit "_SCOPE")) (env_or lookup (localnet_key (lit "SCOPE")) []);
      client_id = [];
      client_secret = [];
      hs256_secret = [];
      hs256_user = [];
      party_hint = [];
      validator_user_id = [];
      wallet_client_id = [];
      wallet_user = [];
      wallet_password = [];
    }

-- The case of OAuth2.
unfoldable pub with_oauth2 : Slot → EnvLookup → List (Text × Text) → Endpoints → Endpoints
unfolding pick env_or slot_key auth_key token_url lit
with_oauth2 s lookup env out = record out {
  token_url_host =
      env_or lookup (slot_key s (lit "_TOKEN_URL")) (token_url out.keycloak_host_base s.realm);
  token_url_internal = token_url out.keycloak_internal_base s.realm;
  client_id =
      pick lookup env (slot_key s (lit "_CLIENT_ID")) (auth_key s (lit "_VALIDATOR_CLIENT_ID"))
        (s.canonical ++ lit "-validator");
  client_secret =
      pick lookup env (slot_key s (lit "_CLIENT_SECRET"))
        (auth_key s (lit "_VALIDATOR_CLIENT_SECRET")) [];
  wallet_client_id =
      pick lookup env (slot_key s (lit "_WALLET_CLIENT_ID"))
        (auth_key s (lit "_AUTO_CONFIG_CLIENT_ID")) (s.canonical ++ lit "-unsafe");
  wallet_user =
      pick lookup env (slot_key s (lit "_WALLET_USER")) (auth_key s (lit "_WALLET_ADMIN_USER_NAME"))
        s.canonical;
  wallet_password =
      pick lookup env (slot_key s (lit "_WALLET_PASSWORD"))
        (auth_key s (lit "_WALLET_ADMIN_USER_PASSWORD")) (lit "abc123");
  validator_user_id = env_or lookup (slot_key s (lit "_VALIDATOR_USER_ID")) (
      pick lookup env (slot_key s (lit "_USER_ID")) (auth_key s (lit "_VALIDATOR_USER_ID"))
        s.validator_user_id);
}

-- The case of HS256.
unfoldable pub with_hs256 : Slot → EnvLookup → Endpoints → Endpoints
unfolding env_or slot_key lit
with_hs256 s lookup out =
    let user = env_or lookup (slot_key s (lit "_HS256_USER")) (lit "ledger-api-user") in
    record out {
      hs256_secret = env_or lookup (slot_key s (lit "_HS256_SECRET")) (lit "unsafe");
      hs256_user = user;
      validator_user_id =
          env_or lookup (slot_key s (lit "_VALIDATOR_USER_ID"))
            (env_or lookup (slot_key s (lit "_USER_ID")) user);
    }

unfoldable pub with_auth :
    AuthKind → Slot → EnvLookup → List (Text × Text) → Endpoints → Result ResolveError Endpoints
unfolding with_oauth2 with_hs256
with_auth oauth2 s lookup env out = ok (with_oauth2 s lookup env out)
with_auth hs256 s lookup env out = ok (with_hs256 s lookup out)
with_auth (other kind) s lookup env out = err (unknown_auth_kind kind)

-- `Resolve`; `files` gives the content of each path.
unfoldable pub resolve : (Text → Content) → Slot → Text → EnvLookup → Result ResolveError Endpoints
unfolding base_endpoints env_or slot_key lit
resolve files s repo_root lookup = do
  compose_env ← compose_env_of files repo_root s
  out ← with_auth s.auth_kind s lookup compose_env (base_endpoints s lookup)
  ok (record out { party_hint = env_or lookup (slot_key s (lit "_PARTY_HINT")) s.canonical })
