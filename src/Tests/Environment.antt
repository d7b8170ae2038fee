-- ===== src/Tests/Environment.antt =====
-- Variables with awkward values, and the theorems on the output of `env` applied to them.
use canton_localnet.Base.{
  all_true, subst, ◌≡◌, refl, true, false, ℕ, Text, lit, List, [], ◌∷◌, ◌++◌, Option, some, ok, any,
  contains, has_prefix, map, ◌==◌,
}
use canton_localnet.EnvCommand.{EnvVar}
use canton_localnet.EnvCommand.Shell.{
  write_env_sh, is_shell_name, no_nul, read_exports, read_exports-write_env_sh,
}
use canton_localnet.EnvCommand.Mask.{mask_callback, pieces, ends_line}
use canton_localnet.EnvCommand.Runner.{registered, registered-mask_callback}
use canton_localnet.EnvCommand.Heredoc.{
  append_github_env, github_env_delimiter, try_delimiter, try_draw, collides, delimiter_prefix,
  heredocs,
}
use canton_localnet.EnvCommand.Injection.{read_github_env}
use canton_localnet.EnvCommand.GithubEnv.{public, read_github_env-append_github_env}
use canton_localnet.EnvCommand.Pqs.{port_mapping_host_segment}
use canton_localnet.EnvCommand.Pqs.Ports.{port_mapping_host_segment_lem}

abbrev secret_var : EnvVar
secret_var = record { key = lit "PASSWORD"; value = lit "it's%0A\nA=b"; secret = true }

abbrev host_var : EnvVar
host_var = record { key = lit "HOST"; value = lit "localhost"; secret = false }

abbrev env_vars : List EnvVar
env_vars = secret_var ∷ host_var ∷ []

read_exports-write_env_sh_example :
    read_exports (write_env_sh env_vars) ≡ some (map (λ v. (v.key, v.value)) env_vars)
read_exports-write_env_sh_example =
    read_exports-write_env_sh env_vars
      (unfold lit is_shell_name no_nul all_true in ((refl, refl), ((refl, refl), tt)))

registered-mask_callback_example :
    registered (mask_callback (lit "it's%0A\nA=b")) ≡ pieces ends_line [] (lit "it's%0A\nA=b")
registered-mask_callback_example = registered-mask_callback (lit "it's%0A\nA=b")

abbrev draw_suffix : ℕ → Option Text
draw_suffix n = some (lit "0a1b")

abbrev appended : Text
appended = heredocs (delimiter_prefix ++ lit "0a1b") env_vars

drawn : append_github_env draw_suffix env_vars ≡ ok appended
unfolding append_github_env github_env_delimiter try_delimiter try_draw collides any contains
    has_prefix delimiter_prefix lit
drawn = refl

drawn-line :
    (n : ℕ) (suffix : Text) → draw_suffix n ≡ some suffix → any (λ c. c == b'\n') suffix ≡ false
unfolding any lit
drawn-line n suffix h =
    let e : lit "0a1b" ≡ suffix = cc in subst (λ s. any (λ c. c == b'\n') s ≡ false) e refl

read_github_env-append_github_env_example : read_github_env appended ≡ some (map public env_vars)
read_github_env-append_github_env_example =
    read_github_env-append_github_env draw_suffix env_vars appended drawn-line
      (unfold lit any in (refl, (refl, tt))) drawn

port_mapping_host_segment_lem_example :
    (port_mapping_host_segment (lit "5432") ≡ lit "5432")
    × (port_mapping_host_segment (lit "5432" ++ (b':' ∷ lit "5433")) ≡ lit "5432")
    × (port_mapping_host_segment (lit "0.0.0.0" ++ (b':' ∷ (lit "5432" ++ (b':' ∷ lit "5433"))))
        ≡ lit "5432")
port_mapping_host_segment_lem_example =
    port_mapping_host_segment_lem (lit "0.0.0.0") (lit "5432") (lit "5433") (unfold lit any in refl)
      (unfold lit any in refl) (unfold lit any in refl)
