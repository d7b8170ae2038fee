-- ===== src/Health/Psql.antt =====
-- The probe of a PQS database: cli/internal/pqs/pqs.go. Running docker is a parameter.
pub mod Redacted
use canton_localnet.Base.{
  ℕ, zero, suc, ◌-◌, Text, lit, List, [], ◌∷◌, ◌++◌, Option, none, some, Result, ok, err,
  has_prefix, is_empty, length, trim_space, if◌then◌else◌,
}

-- `Connection`
pub record Connection : Type 0 where
  pub database : Text
  pub user : Text
  pub password : Text

-- The scan of `strings.ReplaceAll(text, secret, "***")` for a secret that is not empty: `skip`
-- characters belong to the match before.
unfoldable pub stars_from : Text → ℕ → Text → Text
unfolding has_prefix
stars_from secret skip [] = []
stars_from secret (suc skip) (c ∷ cs) = stars_from secret skip cs
stars_from secret zero (c ∷ cs) =
    let kept = c ∷ stars_from secret zero cs in
    let hidden = b'*' ∷ b'*' ∷ b'*' ∷ stars_from secret (length secret - 1) cs in
    if has_prefix (c ∷ cs) secret then hidden else kept

unfoldable pub redact : Text → Text → Text
unfolding stars_from
redact text secret = if is_empty secret then text else stars_from secret zero text

-- A command's output and error, if it fails.
pub record Output : Type 0 where
  pub combined : Text
  pub failure : Option Text

-- The extra environment, and the command with its arguments.
pub record Command : Type 0 where
  pub extra_env : List Text
  pub name : Text
  pub args : List Text

unfoldable pub psql_command : Text → Connection → Command
unfolding lit
psql_command container conn = record {
  extra_env = (lit "PGPASSWORD=" ++ conn.password) ∷ [];
  name = lit "docker";
  args =
      lit "exec"
      ∷ lit "-e"
      ∷ lit "PGPASSWORD"
      ∷ container
      ∷ lit "psql"
      ∷ lit "-X"
      ∷ lit "-A"
      ∷ lit "-t"
      ∷ lit "-U"
      ∷ conn.user
      ∷ lit "-d"
      ∷ conn.database
      ∷ lit "-c"
      ∷ lit "select latest_offset()"
      ∷ [];
}

-- What the probe returns from an output: the error with the text behind it, or the text.
unfoldable pub probe_result : Option Text → Text → Result Text Text
unfolding trim_space lit
probe_result none text = ok (trim_space text)
probe_result (some e) text = err (e ++ (lit ": " ++ trim_space text))

-- `PsqlProbe`
unfoldable pub psql_probe : (Command → Output) → Text → Connection → Result Text Text
unfolding psql_command redact probe_result
psql_probe run container conn =
    let out = run (psql_command container conn) in
    probe_result out.failure (redact out.combined conn.password)
