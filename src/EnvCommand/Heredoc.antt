-- ===== src/EnvCommand/Heredoc.antt =====
-- `appendGithubEnv` and `githubEnvDelimiter`: the text appended to $GITHUB_ENV. The random
-- suffixes are a parameter; a draw can fail. Opening and writing the file are left out.
use canton_localnet.Base.{
  ℕ, zero, suc, ◌+◌, ◌≡◌, refl, Bool, false, Text, lit, List, [], ◌∷◌, ◌++◌, Option, none, some,
  Result, ok, err, any, contains, if◌then◌else◌, Bool-cases, inl, inr, arith,
}
use canton_localnet.EnvCommand.{EnvVar}

pub data DelimiterError : Type 0 where
  no_randomness : DelimiterError
  all_collide : DelimiterError

abbrev pub delimiter_tries : ℕ
delimiter_tries = 8

unfoldable pub delimiter_prefix : Text
unfolding lit
delimiter_prefix = lit "canton_localnet_env_"

-- The inner loop: some value holds the candidate.
unfoldable pub collides : List EnvVar → Text → Bool
unfolding any contains
collides vars candidate = any (λ v. contains v.value candidate) vars

-- One round of the outer loop, on the draw and on what the later rounds return.
unfoldable pub try_draw :
    List EnvVar → Option Text → Result DelimiterError Text → Result DelimiterError Text
try_draw vars none again = err no_randomness
try_draw vars (some suffix) again =
    if collides vars (delimiter_prefix ++ suffix) then again else ok (delimiter_prefix ++ suffix)

-- The outer loop, with the tries that are left and the number of the next draw.
unfoldable pub try_delimiter : (ℕ → Option Text) → List EnvVar → ℕ → ℕ → Result DelimiterError Text
unfolding try_draw
try_delimiter draw vars zero i = err all_collide
try_delimiter draw vars (suc tries) i =
    let again = try_delimiter draw vars tries (i + 1) in try_draw vars (draw i) again

unfoldable pub github_env_delimiter : (ℕ → Option Text) → List EnvVar → Result DelimiterError Text
unfolding try_delimiter
github_env_delimiter draw vars = try_delimiter draw vars delimiter_tries 0

-- The loop that writes one heredoc for each variable.
unfoldable pub heredocs : Text → List EnvVar → Text
unfolding lit
heredocs delimiter [] = []
heredocs delimiter (v ∷ vars) =
    v.key
    ++ (lit "<<"
        ++ (delimiter
            ++ (b'\n' ∷ (v.value ++ (b'\n' ∷ (delimiter ++ (b'\n' ∷ heredocs delimiter vars)))))))

unfoldable pub append_github_env : (ℕ → Option Text) → List EnvVar → Result DelimiterError Text
append_github_env draw vars = elim (github_env_delimiter draw vars) [
  | err e ↦ err e
  | ok delimiter ↦ ok (heredocs delimiter vars)
]

-- The delimiter is made of the prefix and a drawn suffix, and no value holds it.
abbrev pub Chosen : (ℕ → Option Text) → List EnvVar → Text → Type 0
Chosen draw vars d =
    (collides vars d ≡ false)
    × ((n : ℕ) × (suffix : Text) × (draw n ≡ some suffix) × (d ≡ delimiter_prefix ++ suffix))

try_draw-Chosen :
    (draw : ℕ → Option Text) (vars : List EnvVar) (i : ℕ) (x : Option Text)
    (r : Result DelimiterError Text) {d : Text}
    → draw i ≡ x
    → (r ≡ ok d → Chosen draw vars d)
    → try_draw vars x r ≡ ok d
    → Chosen draw vars d
unfolding try_draw
try_draw-Chosen draw vars i none r e again h = cc
try_draw-Chosen draw vars i (some suffix) r e again h =
    elim (Bool-cases (collides vars (delimiter_prefix ++ suffix))) [
      | inl hit ↦ again (rw hit at h)
      | inr miss ↦ (ground arith, (i, suffix, e, ground arith))
    ]

pub try_delimiter-Chosen :
    (draw : ℕ → Option Text) (vars : List EnvVar) (tries i : ℕ) {d : Text}
    → try_delimiter draw vars tries i ≡ ok d
    → Chosen draw vars d
unfolding try_delimiter
try_delimiter-Chosen draw vars zero i h = cc
try_delimiter-Chosen draw vars (suc tries) i h =
    try_draw-Chosen draw vars i (draw i) _ refl
      (λ q. try_delimiter-Chosen draw vars tries (i + 1) q) h
