-- ===== src/Tests/Network.antt =====
-- A machine that sets every variable to one text, and the theorems on the calls of `env` applied to
-- its run for one slot.
use canton_localnet.Base.{
  ◌≡◌, refl, Bool, true, false, ◌||◌, lit, filter, List, [], ◌∷◌, none, some, Result, ok, err, pos,
  Has, inl, inr, equal, has_prefix, cut_prefix, cut, is_space, trim_left_by, trim_right_by,
  trim_space, replace_char, lookup_key,
}
use canton_localnet.Rights.Json.{object, field, empty, string, get, as_string}
use canton_localnet.Slot.EnvFile.{no_file, read_env_file}
use canton_localnet.Slot.Resolve.{
  Endpoints, env_is_set, value_or_zero, env_or, file_or, pick, localnet_key, slot_key, auth_key,
  compose_env_path, optional_file, load_compose_env, compose_env_of, http, host_port, token_url,
  base_endpoints, with_oauth2, with_auth, resolve,
}
use canton_localnet.Slot.Api.{
  Request, token_request, query, Reply, reply, read_reply, string_field, non_empty, form_entry,
  token_form, decode_token, mint_oauth2, mint_by, mint_token, api_url, decode_participant_id,
  fetch_participant_id,
}
use canton_localnet.Config.{defaults}
use canton_localnet.EnvCommand.{EnvVar}
use canton_localnet.EnvCommand.Snapshot.{
  EnvOptions, Machine, kind_text, require_credential_contract, version_of, read_splice_version,
  scan_url, port_of, split_url_host_port, url_port, plain_if_set, global_env_vars, pqs_vars,
  static_slot_env_vars,
}
use canton_localnet.EnvCommand.Prepare.{
  Setup, EnvError, prepare, required_repo_root, flag_endpoints, with_ci_slot, all_endpoints,
  all_static_vars, head_vars, has_flag,
}
use canton_localnet.EnvCommand.Live.{
  Event, masked, called, World, bearer, resolve_env_vars, mask, mask_if, mask_secrets, perform,
  jwt_vars, participant_vars, party_vars, live_slot, live_slots, live_pass, report_and_call,
  after_prepare,
}
use canton_localnet.EnvCommand.Live.Masked.{secret-before_call, token-before_call}
use canton_localnet.EnvCommand.Summary.{public_vars, render_env_summary, render_env_summary-public}
use canton_localnet.Slot.{
  json_ledger_port, ledger_grpc_port, admin_grpc_port, validator_admin_port, web_ui_port,
  upper_char, to_upper, env_prefix, sv_canonical, sv_validator, a_validator, b_validator,
  c_validator, d_validator, all, lower_char, to_lower, normalize, matches, find_slot, parse,
}
use canton_localnet.AuthCommand.{yaml_slot, apply_yaml_overrides, resolve_slot_endpoints}

abbrev machine : Machine
machine = record {
  lookup = λ key. some (lit "x");
  files = λ path. no_file;
  parse_url = λ raw. some (record { scheme = lit "http"; hostname = lit "h"; port = lit "80" });
  cli_version = lit "1";
}

abbrev setup : Setup (Unit {0})
setup = record {
  machine = machine;
  optional_root = ok (lit "/r");
  configured = ok (defaults, none);
}

abbrev options : EnvOptions
options = record { jwt = true; offline = false; pqs = false; party = false; ci_slot = pos 0 }

abbrev answer : Request → Reply
answer (token_request host form) =
    reply 200 (some (object (field (lit "access_token") (string (lit "t")) empty)))
answer _ = reply 200 (some (object (field (lit "participantId") (string (lit "p::1")) empty)))

abbrev report : EnvVar → Bool
report v = true

abbrev world : World
world = record {
  on_secret = some report;
  signer = record { now = 0; decimal = λ n. []; sign = λ secret v. [] };
  server = λ events. answer;
}

abbrev prepared_or :
    Result (EnvError (Unit {0})) (List Endpoints × List EnvVar) → List Endpoints × List EnvVar
prepared_or (ok p) = p
prepared_or (err e) = ([], [])

abbrev prepared : List Endpoints × List EnvVar
prepared = prepared_or (prepare setup (lit "a" ∷ []) options)

is_prepared : prepare setup (lit "a" ∷ []) options ≡ ok prepared
unfolding json_ledger_port ledger_grpc_port admin_grpc_port validator_admin_port web_ui_port
    upper_char to_upper env_prefix sv_canonical sv_validator a_validator b_validator c_validator
    d_validator all lower_char to_lower normalize matches find_slot parse read_env_file env_is_set
    value_or_zero env_or file_or pick localnet_key slot_key auth_key compose_env_path optional_file
    load_compose_env compose_env_of http host_port token_url base_endpoints with_oauth2 with_auth
    resolve read_reply string_field non_empty form_entry token_form decode_token mint_oauth2 mint_by
    mint_token api_url decode_participant_id fetch_participant_id yaml_slot apply_yaml_overrides
    resolve_slot_endpoints kind_text require_credential_contract version_of read_splice_version
    scan_url port_of split_url_host_port url_port plain_if_set global_env_vars pqs_vars
    static_slot_env_vars required_repo_root flag_endpoints with_ci_slot all_endpoints
    all_static_vars head_vars has_flag prepare mask mask_if mask_secrets perform jwt_vars
    participant_vars party_vars live_slot live_slots live_pass report_and_call after_prepare
    resolve_env_vars lit equal has_prefix cut_prefix cut is_space trim_left_by trim_right_by
    trim_space replace_char lookup_key get as_string
is_prepared = refl

abbrev secret_var : EnvVar
secret_var = record {
  key = lit "CANTON_LOCALNET_A_VALIDATOR_1_CLIENT_SECRET";
  value = lit "x";
  secret = true;
}

abbrev jwt_var : EnvVar
jwt_var = record { key = lit "CANTON_LOCALNET_A_VALIDATOR_1_JWT"; value = lit "t"; secret = true }

abbrev token_call : Request
token_call = token_request (lit "x") (
    (lit "grant_type", lit "client_credentials")
    ∷ (lit "client_id", lit "x")
    ∷ (lit "client_secret", lit "x")
    ∷ (lit "audience", lit "x")
    ∷ (lit "scope", lit "x")
    ∷ [])

abbrev participant_call : Request
participant_call = query (lit "x/v2/parties/participant-id") (lit "t")

abbrev before_token : List Event
before_token = masked secret_var ∷ []

abbrev before_participant : List Event
before_participant = masked jwt_var ∷ called token_call ∷ before_token

traced :
    (resolve_env_vars world setup (lit "a" ∷ []) options).1
    ≡ called participant_call ∷ before_participant
unfolding json_ledger_port ledger_grpc_port admin_grpc_port validator_admin_port web_ui_port
    upper_char to_upper env_prefix sv_canonical sv_validator a_validator b_validator c_validator
    d_validator all lower_char to_lower normalize matches find_slot parse read_env_file env_is_set
    value_or_zero env_or file_or pick localnet_key slot_key auth_key compose_env_path optional_file
    load_compose_env compose_env_of http host_port token_url base_endpoints with_oauth2 with_auth
    resolve read_reply string_field non_empty form_entry token_form decode_token mint_oauth2 mint_by
    mint_token api_url decode_participant_id fetch_participant_id yaml_slot apply_yaml_overrides
    resolve_slot_endpoints kind_text require_credential_contract version_of read_splice_version
    scan_url port_of split_url_host_port url_port plain_if_set global_env_vars pqs_vars
    static_slot_env_vars required_repo_root flag_endpoints with_ci_slot all_endpoints
    all_static_vars head_vars has_flag prepare mask mask_if mask_secrets perform jwt_vars
    participant_vars party_vars live_slot live_slots live_pass report_and_call after_prepare
    resolve_env_vars lit equal has_prefix cut_prefix cut is_space trim_left_by trim_right_by
    trim_space replace_char lookup_key get as_string
traced = refl

secret_stands : Has secret_var prepared.1
unfolding json_ledger_port ledger_grpc_port admin_grpc_port validator_admin_port web_ui_port
    upper_char to_upper env_prefix sv_canonical sv_validator a_validator b_validator c_validator
    d_validator all lower_char to_lower normalize matches find_slot parse read_env_file env_is_set
    value_or_zero env_or file_or pick localnet_key slot_key auth_key compose_env_path optional_file
    load_compose_env compose_env_of http host_port token_url base_endpoints with_oauth2 with_auth
    resolve read_reply string_field non_empty form_entry token_form decode_token mint_oauth2 mint_by
    mint_token api_url decode_participant_id fetch_participant_id yaml_slot apply_yaml_overrides
    resolve_slot_endpoints kind_text require_credential_contract version_of read_splice_version
    scan_url port_of split_url_host_port url_port plain_if_set global_env_vars pqs_vars
    static_slot_env_vars required_repo_root flag_endpoints with_ci_slot all_endpoints
    all_static_vars head_vars has_flag prepare mask mask_if mask_secrets perform jwt_vars
    participant_vars party_vars live_slot live_slots live_pass report_and_call after_prepare
    resolve_env_vars lit equal has_prefix cut_prefix cut is_space trim_left_by trim_right_by
    trim_space replace_char lookup_key get as_string
secret_stands =
    (inr (
      inr (
        inr (
          inr (
            inr (
              inr (inr (inr (inr (inr (inr (inr (inr (inr (inr (inr (inr (inl refl))))))))))))))))))

secret-before_call_example :
    ((options.jwt || options.party) ≡ true) × Has (masked secret_var) before_token
secret-before_call_example =
    secret-before_call world report setup (lit "a" ∷ []) options prepared.0 prepared.1
      (called participant_call ∷ masked jwt_var ∷ []) before_token token_call secret_var refl
      is_prepared traced secret_stands refl

token-before_call_example : (v : EnvVar) × (v.value ≡ lit "t") × Has (masked v) before_participant
token-before_call_example =
    token-before_call world report setup (lit "a" ∷ []) options prepared.0 prepared.1 []
      before_participant participant_call (lit "t") refl refl is_prepared traced
      (unfold bearer in refl)

abbrev first_vars : List EnvVar
first_vars =
    jwt_var ∷ record { key = lit "CANTON_LOCALNET_VERSION"; value = lit "1"; secret = false } ∷ []

abbrev second_vars : List EnvVar
second_vars =
    record { key = lit "CANTON_LOCALNET_VERSION"; value = lit "1"; secret = false }
    ∷ secret_var
    ∷ []

render_env_summary-public_example : render_env_summary first_vars ≡ render_env_summary second_vars
render_env_summary-public_example =
    render_env_summary-public first_vars second_vars (unfold public_vars filter in refl)
