-- ===== src/EnvCommand.antt =====
-- The output of the command `env`: cli/cmd/canton-localnet/env.go. The JSON format is left out.
pub mod Shell
pub mod Mask
pub mod Runner
pub mod Heredoc
pub mod Injection
pub mod GithubEnv
pub mod Pqs
pub mod Snapshot
pub mod Prepare
pub mod Live
pub mod Summary
use canton_localnet.Base.{Bool, Text}

-- `envVar`
pub record EnvVar : Type 0 where
  pub key : Text
  pub value : Text
  pub secret : Bool
