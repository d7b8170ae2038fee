-- ===== src/EnvCommand/Injection.antt =====
-- How the runner reads $GITHUB_ENV, the file that `appendGithubEnv` appends to.
use canton_localnet.Base.{
  ◌≡◌, refl, true, false, Text, List, [], ◌∷◌, ◌++◌, Option, none, some, any, contains, has_prefix,
  if◌then◌else◌, split, split_step, cut, join, equal, equal_iff, is_empty, ◌==◌, arith, Bool-cases,
  inl, inr, All,
}

-- Between two entries, or inside a heredoc with the lines read so far.
pub data State : Type 0 where
  idle : State
  body : Text → Text → List Text → State

abbrev pub Vars : Type 0
Vars = List (Text × Text)

-- A line between entries: blank, `KEY<<DELIMITER`, or `KEY=VALUE`.
unfoldable pub plain_line : Text → Vars → Option (State × Vars)
plain_line line out = elim (cut line (b'=' ∷ [])) [
  | none ↦ none
  | some (k, v) ↦ some (idle, out ++ (k, v) ∷ [])
]

unfoldable pub idle_line : Text → Vars → Option (State × Vars)
unfolding plain_line cut
idle_line line out =
    if is_empty line then some (idle, out) else elim (cut line (b'<' ∷ b'<' ∷ [])) [
      | none ↦ plain_line line out
      | some (k, d) ↦
          if any (λ c. c == b'=') k then plain_line line out else some (body k d [], out)
    ]

unfoldable pub read_line : State → Text → Vars → Option (State × Vars)
unfolding idle_line equal join
read_line idle line out = idle_line line out
read_line (body k d lines) line out =
    if equal line d
    then some (idle, out ++ (k, join (b'\n' ∷ []) lines) ∷ [])
    else some (body k d (lines ++ line ∷ []), out)

unfoldable pub read_lines : State → Vars → List Text → Option Vars
unfolding read_line
read_lines idle out [] = some out
read_lines (body k d lines) out [] = none
read_lines s out (line ∷ lines) = elim (read_line s line out) [
  | none ↦ none
  | some (s', out') ↦ read_lines s' out' lines
]

-- The variables that the runner sets from the file.
unfoldable pub read_github_env : Text → Option (List (Text × Text))
unfolding read_lines
read_github_env text = read_lines idle [] (split b'\n' text)

-- The first part of a split stands at the start of the text.
first_part :
    (s : Text) → (p : Text) × (ps : List Text) × (split b'\n' s ≡ p ∷ ps) × (has_prefix s p ≡ true)
unfolding split has_prefix
first_part [] = ([], [], refl, refl)
first_part (c ∷ s) =
    let (p, ps, e, pre) = first_part s in
    elim (Bool-cases (c == b'\n')) [
      | inl nl ↦ ([], p ∷ ps, rw (nl, e) refl, refl)
      | inr no_nl ↦ (c ∷ p, ps, rw (no_nl, e) refl, ground arith)
    ]

-- A delimiter that the text does not hold is none of its lines.
unfoldable pub NoLine : Text → List Text → Type 0
NoLine d lines = All (λ line. equal line d ≡ false) lines

pub lines-ne : (s d : Text) → is_empty d ≡ false → contains s d ≡ false → NoLine d (split b'\n' s)
unfolding split contains NoLine
lines-ne [] d ne h = (ground (arith, equal_iff [] d), tt)
lines-ne (c ∷ s) d ne h =
    let (p, ps, e, pre) = first_part s in
    let ih : NoLine d (split b'\n' s) = lines-ne s d ne (ground arith) in
    rw e (later p ps pre (rw e at ih))
  where
    later :
        (p : Text) (ps : List Text)
        → has_prefix s p ≡ true
        → NoLine d (p ∷ ps)
        → NoLine d (split_step (c == b'\n') c (p ∷ ps))
    later p ps pre ih = elim (Bool-cases (c == b'\n')) [
      | inl nl ↦ rw nl (ground (arith, equal_iff [] d), ih)
      | inr no_nl ↦ rw no_nl (unfold has_prefix in ground (arith, equal_iff (c ∷ p) d), ih.1)
    ]
