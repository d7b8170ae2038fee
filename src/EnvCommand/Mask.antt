-- ===== src/EnvCommand/Mask.antt =====
-- `githubMaskCallback`, `splitSecretLines` and `escapeWorkflowCommandData`: what the `github`
-- format registers with the runner for a secret.
use mathlib.Core.List.{append_assoc, append-nil}
use canton_localnet.Base.{
  ℕ, ◌≡◌, refl, sym, ap, ◌∙◌, Bool, true, false, ◌||◌, ◌&&◌, Text, lit, List, [], ◌∷◌, ◌++◌,
  replace_char, split, split_step, ◌==◌, if◌then◌else◌, arith, Bool-cases, inl, inr, is_empty,
}

-- `strings.ReplaceAll(s, "\r\n", "\n")`
unfoldable pub replace_crlf : Text → Text
replace_crlf [] = []
replace_crlf (c ∷ []) = c ∷ []
replace_crlf (c ∷ d ∷ cs) =
    let joined = b'\n' ∷ replace_crlf cs in
    let kept = c ∷ replace_crlf (d ∷ cs) in if c == b'\r' && d == b'\n' then joined else kept

-- The loop that drops the empty lines.
unfoldable pub non_empty : List Text → List Text
non_empty [] = []
non_empty (line ∷ lines) = let rest = non_empty lines in if is_empty line then rest else line ∷ rest

unfoldable pub split_secret_lines : Text → List Text
unfolding replace_crlf non_empty split replace_char
split_secret_lines value =
    non_empty (split b'\n' (replace_char b'\r' (b'\n' ∷ []) (replace_crlf value)))

unfoldable pub escape_workflow_command_data : Text → Text
unfolding replace_char lit
escape_workflow_command_data s =
    replace_char b'\n' (lit "%0A")
      (replace_char b'\r' (lit "%0D") (replace_char b'%' (lit "%25") s))

-- The commands written for one secret.
unfoldable pub mask_commands : List Text → Text
unfolding lit
mask_commands [] = []
mask_commands (line ∷ lines) =
    lit "::add-mask::" ++ (escape_workflow_command_data line ++ (b'\n' ∷ mask_commands lines))

unfoldable pub mask_callback : Text → Text
mask_callback value = mask_commands (split_secret_lines value)

-- The pieces of a log: the longest runs of characters in which the runner ends no line, with
-- `cur` in front of the first. Empty pieces are left out.
pub pieces : (ℕ → Bool) → Text → Text → List Text
pieces ends cur [] = if is_empty cur then [] else cur ∷ []
pieces ends cur (c ∷ cs) =
    let cut = pieces ends [] cs in
    let more = pieces ends (cur ++ c ∷ []) cs in
    if ends c then (if is_empty cur then cut else cur ∷ cut) else more

abbrev pub ends_line : ℕ → Bool
ends_line c = c == b'\n' || c == b'\r'

abbrev is_newline : ℕ → Bool
is_newline c = c == b'\n'

-- The first part of a split, with `cur` in front.
abbrev lead : Text → List Text → List Text
lead cur [] = cur ∷ []
lead cur (part ∷ parts) = (cur ++ part) ∷ parts

lead-split_step :
    (cur : Text) (c : ℕ) (parts : List Text)
    → lead cur (split_step false c parts) ≡ lead (cur ++ c ∷ []) parts
unfolding split_step
lead-split_step cur c [] = refl
lead-split_step cur c (part ∷ parts) = rw append_assoc

lead-nil : (s : Text) → lead [] (split b'\n' s) ≡ split b'\n' s
unfolding split
lead-nil [] = refl
lead-nil (c ∷ s) = step (c == b'\n') (split b'\n' s)
  where
    step : (e : Bool) (parts : List Text) → lead [] (split_step e c parts) ≡ split_step e c parts
    step true parts = refl
    step false [] = refl
    step false (part ∷ parts) = refl

non_empty-split : (s cur : Text) → non_empty (lead cur (split b'\n' s)) ≡ pieces is_newline cur s
unfolding split pieces non_empty
non_empty-split [] cur = rw append-nil
non_empty-split (c ∷ s) cur = elim (Bool-cases (c == b'\n')) [
  | inl e ↦ rw (e, append-nil) (rw (← non_empty-split s [], lead-nil s))
  | inr n ↦ rw (n, lead-split_step cur c (split b'\n' s)) (non_empty-split s (cur ++ c ∷ []))
]

pieces-replace_char :
    (s cur : Text)
    → pieces is_newline cur (replace_char b'\r' (b'\n' ∷ []) s) ≡ pieces ends_line cur s
unfolding replace_char pieces
pieces-replace_char [] cur = refl
pieces-replace_char (c ∷ s) cur =
    ground (arith, pieces-replace_char s [], pieces-replace_char s (cur ++ c ∷ []))

pieces-replace_crlf :
    (s cur : Text) → pieces ends_line cur (replace_crlf s) ≡ pieces ends_line cur s
unfolding replace_crlf pieces
pieces-replace_crlf [] cur = refl
pieces-replace_crlf (c ∷ []) cur = refl
pieces-replace_crlf (c ∷ d ∷ s) cur = ground (
  arith,
  pieces-replace_crlf s [],
  pieces-replace_crlf (d ∷ s) [],
  pieces-replace_crlf (d ∷ s) (cur ++ c ∷ []),
)

-- The lines that are masked are the pieces in which the runner would show the secret.
pub split_secret_lines-pieces :
    (value : Text) → split_secret_lines value ≡ pieces ends_line [] value
unfolding split_secret_lines
split_secret_lines-pieces value =
    ap non_empty (sym (lead-nil normalized))
    ∙ non_empty-split normalized []
    ∙ pieces-replace_char (replace_crlf value) []
    ∙ pieces-replace_crlf value []
  where
    normalized : Text
    normalized = replace_char b'\r' (b'\n' ∷ []) (replace_crlf value)
