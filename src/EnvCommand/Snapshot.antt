-- ===== src/EnvCommand/Snapshot.antt =====
-- The variables that need no network call: cli/cmd/canton-localnet/env.go. `net/url.Parse` is a
-- parameter, which gives the host name, the port and the scheme of a URL.
use canton_localnet.Base.{
  Bool, true, false, not, Text, lit, List, [], ◌∷◌, ◌++◌, Option, none, some, Result, ok, err,
  ◌>>=◌, ◌>>◌, guard, wrap, equal, is_empty, trim_space, lookup_key, if◌then◌else◌, ℤ,
}
use canton_localnet.Base.Files.{join_path}
use canton_localnet.Slot.{
  Slot, AuthKind, oauth2, hs256, other, ParseError, parse, ledger_grpc_port, web_ui_port,
}
use canton_localnet.Slot.EnvFile.{Content, EnvFileError, read_env_file}
use canton_localnet.Slot.Resolve.{
  EnvLookup, Endpoints, env_is_set, value_or_zero, slot_key, localnet_key,
}
use canton_localnet.EnvCommand.{EnvVar}
use canton_localnet.EnvCommand.Pqs.{PqsError, resolve_pqs_fields, npgsql_connection_string}

pub record EnvOptions : Type 0 where
  pub jwt : Bool
  pub offline : Bool
  pub pqs : Bool
  pub party : Bool
  pub ci_slot : ℤ

pub record Url : Type 0 where
  pub scheme : Text
  pub hostname : Text
  pub port : Text

-- What the command reads of the machine: the environment, the files, and `url.Parse`.
pub record Machine : Type 0 where
  pub lookup : EnvLookup
  pub files : Text → Content
  pub parse_url : Text → Option Url
  pub cli_version : Text

pub data StaticError : Type 0 where
  not_oauth2 : Text → StaticError
  no_client_secret : Text → StaticError
  env_file : EnvFileError → StaticError
  no_splice_version : StaticError
  bad_url : Text → StaticError
  no_slot : ParseError → StaticError
  pqs_fields : PqsError → StaticError

unfoldable pub kind_text : AuthKind → Text
unfolding lit
kind_text oauth2 = lit "oauth2"
kind_text hs256 = lit "hs256"
kind_text (other t) = t

abbrev pub kind_is_oauth2 : AuthKind → Bool
kind_is_oauth2 oauth2 = true
kind_is_oauth2 _ = false

unfoldable pub require_credential_contract : Endpoints → Result StaticError (Unit {0})
require_credential_contract ep =
    if not (kind_is_oauth2 ep.slot.auth_kind)
    then err (not_oauth2 ep.slot.canonical)
    else guard (not (is_empty ep.client_secret)) (no_client_secret ep.slot.canonical)

unfoldable pub version_of : Option Text → Result StaticError Text
unfolding trim_space
version_of none = err no_splice_version
version_of (some v) = if is_empty (trim_space v) then err no_splice_version else ok v

unfoldable pub read_splice_version : Machine → Text → Result StaticError Text
unfolding env_is_set value_or_zero read_env_file lit lookup_key version_of
read_splice_version m repo_root =
    if env_is_set m.lookup (lit "SPLICE_VERSION")
    then ok (value_or_zero (m.lookup (lit "SPLICE_VERSION")))
    else do
      parsed ← wrap env_file (
          read_env_file
            (m.files (join_path (join_path repo_root (lit "compose")) (lit ".env.defaults"))))
      version_of (lookup_key (lit "SPLICE_VERSION") parsed)

unfoldable pub scan_url : Machine → Slot → Text
unfolding env_is_set value_or_zero lit localnet_key web_ui_port
scan_url m sv =
    if env_is_set m.lookup (localnet_key (lit "SCAN_URL"))
    then value_or_zero (m.lookup (localnet_key (lit "SCAN_URL")))
    else lit "http://scan.localhost:" ++ web_ui_port sv

-- The port, or that of the scheme.
unfoldable pub port_of : Text → Url → Result StaticError Text
unfolding equal lit
port_of raw u =
    if not (is_empty u.port)
    then ok u.port
    else if equal u.scheme (lit "https")
    then ok (lit "443")
    else if equal u.scheme (lit "http")
    then ok (lit "80")
    else err (bad_url raw)

unfoldable pub split_url_host_port : Machine → Text → Result StaticError (Text × Text)
unfolding port_of
split_url_host_port m raw = elim (m.parse_url raw) [
  | none ↦ err (bad_url raw)
  | some u ↦ do
    guard (not (is_empty u.hostname)) (bad_url raw)
    port ← port_of raw u
    ok (u.hostname, port)
]

unfoldable pub url_port : Machine → Text → Result StaticError Text
unfolding split_url_host_port
url_port m raw = do parts ← split_url_host_port m raw; ok parts.1

abbrev pub plain : Text → Text → EnvVar
plain key value = record { key = key; value = value; secret = false }

abbrev pub hidden : Text → Text → EnvVar
hidden key value = record { key = key; value = value; secret = true }

-- `if scope != "" { vars = append(vars, …) }`
unfoldable pub plain_if_set : Text → Text → List EnvVar
plain_if_set key value = if is_empty value then [] else plain key value ∷ []

unfoldable pub global_env_vars : Machine → Endpoints → Text → Result StaticError (List EnvVar)
unfolding split_url_host_port parse lit localnet_key plain_if_set scan_url
global_env_vars m ep splice_version = do
  (keycloak_host, keycloak_port) ← split_url_host_port m ep.keycloak_host_base
  sv ← wrap no_slot (parse (lit "sv"))
  ok (
      plain (localnet_key (lit "HOST")) ep.host
      ∷ plain (localnet_key (lit "KEYCLOAK_HOST")) keycloak_host
      ∷ plain (localnet_key (lit "KEYCLOAK_PORT")) keycloak_port
      ∷ plain (localnet_key (lit "AUDIENCE")) ep.audience
      ∷ plain (localnet_key (lit "SCAN_URL")) (scan_url m sv)
      ∷ (plain_if_set (localnet_key (lit "SCOPE")) ep.scope
          ++ (plain (localnet_key (lit "PROFILE")) ep.slot.canonical
              ∷ plain (localnet_key (lit "VERSION")) m.cli_version
              ∷ plain (localnet_key (lit "SPLICE_VERSION")) splice_version
              ∷ [])))

unfoldable pub pqs_vars : Machine → Text → Endpoints → Bool → Result StaticError (List EnvVar)
unfolding resolve_pqs_fields slot_key lit npgsql_connection_string
pqs_vars m repo_root ep false = ok []
pqs_vars m repo_root ep true = do
  f ← wrap pqs_fields (resolve_pqs_fields m.files m.lookup repo_root ep)
  ok (
      plain (slot_key ep.slot (lit "_PQS_HOST")) f.host
      ∷ plain (slot_key ep.slot (lit "_PQS_PORT")) f.port
      ∷ plain (slot_key ep.slot (lit "_PQS_DATABASE")) f.database
      ∷ plain (slot_key ep.slot (lit "_PQS_USER")) f.user
      ∷ hidden (slot_key ep.slot (lit "_PQS_PASSWORD")) f.password
      ∷ hidden (slot_key ep.slot (lit "_PQS_CONNECTION_STRING")) (npgsql_connection_string f)
      ∷ [])

unfoldable pub static_slot_env_vars :
    Machine → Text → Endpoints → EnvOptions → Result StaticError (List EnvVar)
unfolding url_port slot_key lit plain_if_set pqs_vars ledger_grpc_port kind_text
static_slot_env_vars m repo_root ep opts = do
  json_port ← url_port m ep.json_ledger_api_url
  guard (kind_is_oauth2 ep.slot.auth_kind) (not_oauth2 ep.slot.canonical)
  more ← pqs_vars m repo_root ep opts.pqs
  ok (
      plain (slot_key ep.slot (lit "_JSON_API_URL")) ep.json_ledger_api_url
      ∷ plain (slot_key ep.slot (lit "_JSON_PORT")) json_port
      ∷ plain (slot_key ep.slot (lit "_GRPC_URL")) (lit "http://" ++ ep.ledger_grpc_url)
      ∷ plain (slot_key ep.slot (lit "_GRPC_PORT")) (ledger_grpc_port ep.slot)
      ∷ plain (slot_key ep.slot (lit "_ADMIN_GRPC_URL")) (lit "http://" ++ ep.admin_grpc_url)
      ∷ plain (slot_key ep.slot (lit "_VALIDATOR_API_URL"))
          (lit "http://" ++ ep.validator_admin_url)
      ∷ plain (slot_key ep.slot (lit "_TOKEN_URL")) ep.token_url_host
      ∷ plain (slot_key ep.slot (lit "_CLIENT_ID")) ep.client_id
      ∷ hidden (slot_key ep.slot (lit "_CLIENT_SECRET")) ep.client_secret
      ∷ plain (slot_key ep.slot (lit "_AUDIENCE")) ep.audience
      ∷ plain (slot_key ep.slot (lit "_VALIDATOR_USER_ID")) ep.validator_user_id
      ∷ plain (slot_key ep.slot (lit "_AUTH_KIND")) (kind_text ep.slot.auth_kind)
      ∷ (plain_if_set (slot_key ep.slot (lit "_SCOPE")) ep.scope ++ more))
