-- ===== src/EnvCommand/Shell.antt =====
-- `writeEnvSh` and `shQuote`, and how a POSIX shell reads their output.
use canton_localnet.Base.{
  Bool, true, not, ◌&&◌, ◌||◌, leb, all_true, any, ℕ, ◌≡◌, refl, ap, ◌∙◌, false, Text, lit, List,
  [], ◌∷◌, ◌++◌, Option, none, some, replace_char, ◌==◌, if◌then◌else◌, All, map, arith,
}
use mathlib.Core.List.{append_assoc, append-nil}
use canton_localnet.EnvCommand.{EnvVar}

-- `'` and `'\''`
abbrev escaped_quote : Text
escaped_quote = b'\'' ∷ b'\\' ∷ b'\'' ∷ b'\'' ∷ []

unfoldable pub sh_quote : Text → Text
unfolding replace_char
sh_quote s = b'\'' ∷ (replace_char b'\'' escaped_quote s ++ (b'\'' ∷ []))

unfoldable pub write_env_sh : List EnvVar → Text
write_env_sh [] = []
write_env_sh (v ∷ vars) =
    lit "export " ++ (v.key ++ (b'=' ∷ (sh_quote v.value ++ (b'\n' ∷ write_env_sh vars))))

abbrev is_letter : ℕ → Bool
is_letter c = (leb b'A' c && leb c b'Z') || (leb b'a' c && leb c b'z') || c == b'_'

abbrev is_decimal_digit : ℕ → Bool
is_decimal_digit c = leb b'0' c && leb c b'9'

-- A name in the shell: letters, digits and underscores, with no digit in front.
unfoldable pub is_shell_name : Text → Bool
unfolding all_true
is_shell_name [] = false
is_shell_name (c ∷ cs) = is_letter c && all_true (λ d. is_letter d || is_decimal_digit d) cs

-- A character that stands for itself in a word outside quotes. None of the others is accepted
-- there: they expand, split the word, or end the command.
is_plain : ℕ → Bool
unfolding any lit
is_plain c = is_letter c || is_decimal_digit c || any (λ d. d == c) (lit "%+,-./:=@")

-- The part of a POSIX shell that reads `export NAME=WORD` lines. Between single quotes every
-- character but NUL stands for itself; outside them a backslash keeps the next character, or
-- takes away a newline, an unquoted newline ends the line, and a character that is not plain is refused.
pub data Mode : Type 0 where
  line_start : Mode
  keyword : Text → Mode
  name : Text → Mode
  word quoted escaped : Text → Text → Mode

abbrev Vars : Type 0
Vars = List (Text × Text)

read_keyword : Text → ℕ → Option Mode
read_keyword [] c = none
read_keyword (k ∷ []) c = if c == k then some (name []) else none
read_keyword (k ∷ l ∷ ks) c = if c == k then some (keyword (l ∷ ks)) else none

read_char : Mode → ℕ → Option Mode
unfolding read_keyword is_shell_name is_plain lit
read_char line_start c = read_keyword (lit "export ") c
read_char (keyword ks) c = read_keyword ks c
read_char (name k) c =
    if c == b'='
    then (if is_shell_name k then some (word k []) else none)
    else some (name (k ++ c ∷ []))
read_char (word k v) c =
    if c == b'\''
    then some (quoted k v)
    else if c == b'\\'
    then some (escaped k v)
    else if c == b'\n'
    then some line_start
    else if is_plain c
    then some (word k (v ++ c ∷ []))
    else none
read_char (quoted k v) c =
    if c == b'\'' then some (word k v) else if c == 0 then none else some (quoted k (v ++ c ∷ []))
read_char (escaped k v) c =
    if c == b'\n' then some (word k v) else if c == 0 then none else some (word k (v ++ c ∷ []))

-- The variables set so far, with that of the line which a character ends.
set_by : Vars → Mode → ℕ → Vars
set_by out (word k v) c = if c == b'\n' then out ++ (k, v) ∷ [] else out
set_by out _ c = out

finish : Mode → Vars → Option Vars
finish line_start out = some out
finish _ out = none

shell : Mode → Vars → Text → Option Vars
unfolding read_char set_by finish
shell m out [] = finish m out
shell m out (c ∷ cs) = elim (read_char m c) [ none ↦ none | some m' ↦ shell m' (set_by out m c) cs ]

-- What the shell sets when it reads the text, unless it is refused.
pub read_exports : Text → Option (List (Text × Text))
read_exports = shell line_start []

-- A text without NUL, as each word of a shell is.
unfoldable pub no_nul : Text → Bool
unfolding all_true
no_nul s = all_true (λ c. not (c == 0)) s

shell-quoted :
    (k v s rest : Text) (out : Vars)
    → all_true (λ c. not (c == 0)) s ≡ true
    → shell (quoted k v) out (replace_char b'\'' escaped_quote s ++ (b'\'' ∷ rest))
      ≡ shell (word k (v ++ s)) out rest
unfolding shell replace_char all_true
shell-quoted k v [] rest out h = simp append-nil
shell-quoted k v (c ∷ s) rest out h =
    ground
      (arith, shell-quoted k (v ++ c ∷ []) s rest out (ground arith), append_assoc v (c ∷ []) s)

shell-equals :
    (k rest : Text) (out : Vars)
    → is_shell_name k ≡ true
    → shell (name k) out (b'=' ∷ rest) ≡ shell (word k []) out rest
unfolding shell
shell-equals k rest out n = rw (n, shell, read_char) refl

shell-name :
    (key k rest : Text) (out : Vars)
    → all_true (λ c. not (c == b'=')) key ≡ true
    → is_shell_name (k ++ key) ≡ true
    → shell (name k) out (key ++ (b'=' ∷ rest)) ≡ shell (word (k ++ key) []) out rest
unfolding shell all_true
shell-name [] k rest out h n = rw (append-nil k) (shell-equals k rest out (rw (append-nil k) at n))
shell-name (c ∷ key) k rest out h n =
    let ih =
      shell-name key (k ++ c ∷ []) rest out (ground arith) (rw (append_assoc k (c ∷ []) key) n) in
    ground (arith, ih, append_assoc k (c ∷ []) key)

part_no_equals :
    (s : Text)
    → all_true (λ d. is_letter d || is_decimal_digit d) s ≡ true
    → all_true (λ c. not (c == b'=')) s ≡ true
unfolding all_true
part_no_equals [] h = refl
part_no_equals (c ∷ s) h = ground (arith, part_no_equals s (ground arith))

name_no_equals : (s : Text) → is_shell_name s ≡ true → all_true (λ c. not (c == b'=')) s ≡ true
unfolding all_true is_shell_name
name_no_equals [] h = refl
name_no_equals (c ∷ s) h = ground (arith, part_no_equals s (ground arith))

shell-export :
    (rest : Text) (out : Vars)
    → shell line_start out (lit "export " ++ rest) ≡ shell (name []) out rest
unfolding shell
shell-export rest out = refl

-- A quoted value and the end of its line.
shell-sh_quote :
    (k v rest : Text) (out : Vars)
    → no_nul v ≡ true
    → shell (word k []) out (sh_quote v ++ (b'\n' ∷ rest))
      ≡ shell line_start (out ++ (k, v) ∷ []) rest
unfolding shell sh_quote no_nul
shell-sh_quote k v rest out h =
    rw (append_assoc (replace_char b'\'' escaped_quote v) (b'\'' ∷ []) (b'\n' ∷ rest))
      (shell-quoted k [] v (b'\n' ∷ rest) out h)

shell-write_env_sh :
    (vars : List EnvVar) (out : Vars)
    → All (λ v. (is_shell_name v.key ≡ true) × (no_nul v.value ≡ true)) vars
    → shell line_start out (write_env_sh vars) ≡ some (out ++ map (λ v. (v.key, v.value)) vars)
unfolding write_env_sh
shell-write_env_sh [] out h = simp append-nil (unfold shell in refl)
shell-write_env_sh (v ∷ vars) out ((n, z), h) =
    shell-export (v.key ++ (b'=' ∷ (sh_quote v.value ++ (b'\n' ∷ write_env_sh vars)))) out
    ∙ shell-name v.key [] (sh_quote v.value ++ (b'\n' ∷ write_env_sh vars)) out
        (name_no_equals v.key n) n
    ∙ shell-sh_quote v.key v.value (write_env_sh vars) out z
    ∙ shell-write_env_sh vars (out ++ (v.key, v.value) ∷ []) h
    ∙ ap some (append_assoc out ((v.key, v.value) ∷ []) (map (λ v. (v.key, v.value)) vars))

-- A POSIX shell that reads the output of `--format sh` sets every variable of the snapshot, in
-- order, to exactly its value, and refuses nothing: no character of a value is expanded, splits a word
-- or ends a command. The keys are shell names, and the values hold no NUL.
pub read_exports-write_env_sh :
    (vars : List EnvVar)
    → All (λ v. (is_shell_name v.key ≡ true) × (no_nul v.value ≡ true)) vars
    → read_exports (write_env_sh vars) ≡ some (map (λ v. (v.key, v.value)) vars)
unfolding read_exports
read_exports-write_env_sh vars h = shell-write_env_sh vars [] h
