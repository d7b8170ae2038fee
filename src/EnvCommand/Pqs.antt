-- ===== src/EnvCommand/Pqs.antt =====
-- The fields of a PQS connection: `resolvePqsFields` and its helpers in
-- cli/cmd/canton-localnet/env.go.
pub mod Ports
use canton_localnet.Base.{
  Bool, true, false, not, ◌&&◌, ◌||◌, Text, lit, List, [], ◌∷◌, ◌++◌, Option, none, some, Result,
  ok, err, ◌>>=◌, ◌>>◌, guard, wrap, equal, is_empty, any, ◌==◌, ℕ, trim_space, split, cut_prefix,
  cut_suffix, replace_char, lookup_key, if◌then◌else◌,
}
use canton_localnet.Base.Files.{join_path}
use canton_localnet.Slot.{Slot}
use canton_localnet.Slot.EnvFile.{Content, EnvFileError, read_env_file}
use canton_localnet.Slot.Resolve.{EnvLookup, Endpoints, env_is_set, value_or_zero}

pub record PqsFields : Type 0 where
  pub host : Text
  pub port : Text
  pub database : Text
  pub user : Text
  pub password : Text

pub data PqsError : Type 0 where
  unsupported : Text → PqsError
  reading : EnvFileError → PqsError
  no_entry : Text → PqsError

-- `;`, `"` and `=`
unfoldable pub is_special : ℕ → Bool
is_special c = c == 59 || c == 34 || c == 61

unfoldable pub npgsql_escape : Text → Text
unfolding any is_special replace_char
npgsql_escape s =
    if not (any is_special s)
    then s
    else b'"' ∷ (replace_char b'"' (b'"' ∷ b'"' ∷ []) s ++ (b'"' ∷ []))

unfoldable pub npgsql_connection_string : PqsFields → Text
unfolding lit npgsql_escape
npgsql_connection_string f =
    lit "Host="
    ++ (npgsql_escape f.host
        ++ (lit ";Port="
            ++ (npgsql_escape f.port
                ++ (lit ";Database="
                    ++ (npgsql_escape f.database
                        ++ (lit ";Username="
                            ++ (npgsql_escape f.user
                                ++ (lit ";Password=" ++ npgsql_escape f.password))))))))

-- The text between `${KEY:-` and `}`, if the value has that shape.
unfoldable pub default_of : Text → Text → Option Text
unfolding cut_prefix cut_suffix lit
default_of key raw = elim (cut_prefix raw (lit "${" ++ (key ++ lit ":-"))) [
  | none ↦ none
  | some rest ↦ cut_suffix rest (lit "}")
]

unfoldable pub shell_default : Text → Option Text → Result PqsError Text
unfolding default_of
shell_default key none = err (no_entry key)
shell_default key (some raw) = elim (default_of key raw) [ none ↦ ok raw | some value ↦ ok value ]

unfoldable pub shell_default_override : EnvLookup → List (Text × Text) → Text → Result PqsError Text
unfolding env_is_set value_or_zero lookup_key shell_default
shell_default_override lookup parsed key =
    if env_is_set lookup key
    then ok (value_or_zero (lookup key))
    else shell_default key (lookup_key key parsed)

-- `parts[len(parts)-2]`, and the only part of one.
unfoldable pub second_to_last : List Text → Text
second_to_last [] = []
second_to_last (part ∷ []) = part
second_to_last (part ∷ last ∷ []) = part
second_to_last (part ∷ next ∷ more ∷ parts) = second_to_last (next ∷ more ∷ parts)

unfoldable pub port_mapping_host_segment : Text → Text
unfolding second_to_last split
port_mapping_host_segment raw = second_to_last (split b':' raw)

unfoldable pub common_env_path : Text → Text
unfolding join_path lit
common_env_path repo_root =
    join_path
      (join_path
        (join_path (join_path (join_path repo_root (lit "compose")) (lit "modules"))
          (lit "localnet"))
        (lit "env"))
      (lit "common.env")

unfoldable pub reads_as_reader : Slot → Bool
unfolding equal lit
reads_as_reader s = equal s.short (lit "a")

unfoldable pub user_key : Slot → Text
unfolding lit reads_as_reader
user_key s = if reads_as_reader s then lit "PQS_A_VALIDATOR_1_READER_USER" else lit "DB_USER"

unfoldable pub password_key : Slot → Text
unfolding lit reads_as_reader
password_key s =
    if reads_as_reader s then lit "PQS_A_VALIDATOR_1_READER_PASSWORD" else lit "DB_PASSWORD"

unfoldable pub resolve_pqs_fields :
    (Text → Content) → EnvLookup → Text → Endpoints → Result PqsError PqsFields
unfolding lit env_is_set value_or_zero port_mapping_host_segment user_key password_key
resolve_pqs_fields files lookup repo_root ep = do
  guard ep.slot.pqs (unsupported ep.slot.canonical)
  common ← wrap reading (read_env_file (files (common_env_path repo_root)))
  user ← shell_default_override lookup common (user_key ep.slot)
  password ← shell_default_override lookup common (password_key ep.slot)
  port ← shell_default_override lookup common (lit "DB_PORT")
  let host_port_key = lit "POSTGRES_HOST_PORT"
  ok (record {
    host = ep.host;
    port =
        if env_is_set lookup host_port_key
        then port_mapping_host_segment (value_or_zero (lookup host_port_key))
        else port;
    database = lit "pqs-" ++ ep.slot.canonical;
    user = user;
    password = password;
  })
