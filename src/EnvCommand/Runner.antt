-- ===== src/EnvCommand/Runner.antt =====
-- What the runner registers from the output of `githubMaskCallback`.
use mathlib.Core.List.{append_assoc}
use canton_localnet.Base.{
  ℕ, ◌≡◌, refl, sym, ap, ◌∙◌, false, ◌&&◌, Text, lit, List, [], ◌∷◌, ◌++◌, Option, none, some,
  replace_char, split, ◌==◌, if◌then◌else◌, arith, cut_prefix, has_prefix, zero, suc, split-append,
  any-append, any, cut_prefix-append,
}
use canton_localnet.EnvCommand.Mask.{
  escape_workflow_command_data, mask_commands, mask_callback, split_secret_lines, pieces, ends_line,
  split_secret_lines-pieces,
}

-- The character that the runner reads here, and how many more that takes: `%25`, `%0D` and `%0A`
-- are escapes.
decode_at : ℕ → Text → ℕ × ℕ
decode_at c cs =
    if c == b'%' && has_prefix cs (b'2' ∷ b'5' ∷ [])
    then (b'%', 2)
    else if c == b'%' && has_prefix cs (b'0' ∷ b'D' ∷ [])
    then (b'\r', 2)
    else if c == b'%' && has_prefix cs (b'0' ∷ b'A' ∷ [])
    then (b'\n', 2)
    else (c, 0)

unescape_from : ℕ → Text → Text
unfolding decode_at has_prefix
unescape_from skip [] = []
unescape_from (suc skip) (c ∷ cs) = unescape_from skip cs
unescape_from zero (c ∷ cs) = (decode_at c cs).0 ∷ unescape_from (decode_at c cs).1 cs

unescape : Text → Text
unfolding unescape_from
unescape s = unescape_from 0 s

-- The values that the runner masks after reading the lines: the data of each mask command.
register : Option Text → List Text → List Text
register none values = values
register (some data_text) values = unescape data_text ∷ values

registered_lines : List Text → List Text
unfolding register
registered_lines [] = []
registered_lines (line ∷ lines) =
    register (cut_prefix line (lit "::add-mask::")) (registered_lines lines)

pub registered : Text → List Text
unfolding registered_lines
registered output = registered_lines (split b'\n' output)

replace_char-append :
    (old : ℕ) (new s t : Text)
    → replace_char old new (s ++ t) ≡ replace_char old new s ++ replace_char old new t
unfolding replace_char
replace_char-append old new [] t = refl
replace_char-append old new (c ∷ s) t = rw (replace_char-append old new s t, append_assoc) refl

abbrev escape_char : ℕ → Text
escape_char c =
    if c == b'%'
    then b'%' ∷ b'2' ∷ b'5' ∷ []
    else if c == b'\r'
    then b'%' ∷ b'0' ∷ b'D' ∷ []
    else if c == b'\n'
    then b'%' ∷ b'0' ∷ b'A' ∷ []
    else c ∷ []

escape-cons :
    (c : ℕ) (s : Text)
    → escape_workflow_command_data (c ∷ s) ≡ escape_char c ++ escape_workflow_command_data s
unfolding escape_workflow_command_data
escape-cons c s = ground arith

unescape-escape : (s : Text) → unescape (escape_workflow_command_data s) ≡ s
unfolding unescape
unescape-escape [] = unfold escape_workflow_command_data in refl
unescape-escape (c ∷ s) = rw escape-cons (ground (arith, unescape-escape s))

newline-free : (s : Text) → any (λ c. c == b'\n') (escape_workflow_command_data s) ≡ false
unfolding any
newline-free [] = unfold escape_workflow_command_data in refl
newline-free (c ∷ s) = rw escape-cons (ground (arith, newline-free s))

command_newline-free : any (λ c. c == b'\n') (lit "::add-mask::") ≡ false
unfolding lit any
command_newline-free = refl

registered_lines-command :
    (line : Text) (lines : List Text)
    → registered_lines ((lit "::add-mask::" ++ escape_workflow_command_data line) ∷ lines)
      ≡ line ∷ registered_lines lines
unfolding registered_lines
registered_lines-command line lines =
    rw
      (
        cut_prefix-append (lit "::add-mask::") (escape_workflow_command_data line),
        registered_lines,
        register,
      )
      (ap (λ v. v ∷ registered_lines lines) (unescape-escape line))

registered-command :
    (line rest : Text)
    → registered (lit "::add-mask::" ++ (escape_workflow_command_data line ++ (b'\n' ∷ rest)))
      ≡ line ∷ registered rest
unfolding registered
registered-command line rest =
    ap registered_lines (
      ap (split b'\n')
        (sym (append_assoc (lit "::add-mask::") (escape_workflow_command_data line) (b'\n' ∷ rest)))
      ∙ split-append b'\n' (lit "::add-mask::" ++ escape_workflow_command_data line) rest free)
    ∙ registered_lines-command line (split b'\n' rest)
  where
    free : any (λ c. c == b'\n') (lit "::add-mask::" ++ escape_workflow_command_data line) ≡ false
    free = rw (any-append, command_newline-free, newline-free line) refl

registered-mask_commands : (lines : List Text) → registered (mask_commands lines) ≡ lines
registered-mask_commands [] = unfold registered mask_commands split cut_prefix in refl
registered-mask_commands (line ∷ lines) =
    opened
    ∙ registered-command line (mask_commands lines)
    ∙ ap (λ rest. line ∷ rest) (registered-mask_commands lines)
  where
    opened :
        registered (mask_commands (line ∷ lines))
        ≡ registered (
            lit "::add-mask::"
            ++ (escape_workflow_command_data line ++ (b'\n' ∷ mask_commands lines)))
    opened = unfold mask_commands in refl

-- After the output of the `github` format for a secret, the runner masks exactly the pieces that
-- it would show of it: the longest non-empty runs between line ends, whatever characters they hold.
pub registered-mask_callback :
    (value : Text) → registered (mask_callback value) ≡ pieces ends_line [] value
unfolding mask_callback
registered-mask_callback value =
    registered-mask_commands (split_secret_lines value) ∙ split_secret_lines-pieces value
