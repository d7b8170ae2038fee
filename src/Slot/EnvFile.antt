-- ===== src/Slot/EnvFile.antt =====
-- `ReadEnvFile`: cli/internal/slot/resolve.go. A line stays below the scanner's limit of 64 KB.
use canton_localnet.Base.{
  ◌≡◌, refl, sym, ◌∙◌, ap, ℕ, suc, true, ◌&&◌, ◌||◌, Text, lit, List, [], ◌∷◌, Option, none, some,
  Result, ok, err, arith, equal, has_prefix, is_empty, trim_space, split, cut, lookup_key, set_key,
  lookup_key-set_key, ok-injective, ◌==◌, if◌then◌else◌,
}

pub data EnvFileError : Type 0 where
  absent : EnvFileError
  unreadable : EnvFileError
  not_key_value : ℕ → Text → EnvFileError

-- What `os.Open` and reading give for a path.
pub data Content : Type 0 where
  no_file io_error : Content
  content : Text → Content

-- The lines that `bufio.Scanner` yields, whose `\r` at the end `TrimSpace` removes later.
unfoldable pub drop_last_empty : List Text → List Text
drop_last_empty [] = []
drop_last_empty ([] ∷ []) = []
drop_last_empty (line ∷ lines) = line ∷ drop_last_empty lines

unfoldable pub scan_lines : Text → List Text
unfolding drop_last_empty split
scan_lines text = drop_last_empty (split 10 text)

-- `stripInlineComment`, with the character before, if there is one.
unfoldable pub strip_comment_after : Option ℕ → Text → Text
strip_comment_after before [] = []
strip_comment_after before (c ∷ cs) =
    let rest = c ∷ strip_comment_after (some c) cs in
    if c == 35 && elim before [ none ↦ true | some b ↦ b == 32 || b == 9 ] then [] else rest

unfoldable pub strip_inline_comment : Text → Text
unfolding strip_comment_after
strip_inline_comment s = strip_comment_after none s

-- The front and the last character of a text that is not empty.
unfoldable pub unsnoc : ℕ → Text → Text × ℕ
unsnoc c [] = ([], c)
unsnoc c (d ∷ ds) = let (front, last) = unsnoc d ds in (c ∷ front, last)

-- `stripPairedQuotes`; `"` is 34 and `'` is 39.
unfoldable pub strip_paired_quotes : Text → Text
unfolding unsnoc
strip_paired_quotes [] = []
strip_paired_quotes (first ∷ []) = first ∷ []
strip_paired_quotes (first ∷ d ∷ ds) =
    let (middle, last) = unsnoc d ds in
    if first == last && (first == 34 || first == 39) then middle else first ∷ d ∷ ds

-- A trimmed line: nothing, an assignment, or an error.
pub data Line : Type 0 where
  skipped malformed : Line
  assignment : Text → Text → Line

unfoldable pub assign : Option (Text × Text) → Line
unfolding trim_space strip_inline_comment strip_paired_quotes
assign none = malformed
assign (some ([], value)) = malformed
assign (some (c ∷ key, value)) =
    assignment (trim_space (c ∷ key))
      (strip_paired_quotes (trim_space (strip_inline_comment value)))

unfoldable pub read_line : Text → Line
unfolding assign cut has_prefix lit trim_space
read_line line =
    if is_empty line || has_prefix line (lit "#") then skipped else assign (cut line (lit "="))

-- The loop: the number of the last line read, the entries so far, and the lines left.
unfoldable pub read_lines :
    ℕ → List (Text × Text) → List Text → Result EnvFileError (List (Text × Text))
unfolding read_line set_key trim_space
read_lines n out [] = ok out
read_lines n out (raw ∷ lines) = elim (read_line (trim_space raw)) [
  | skipped ↦ read_lines (suc n) out lines
  | malformed ↦ err (not_key_value (suc n) (trim_space raw))
  | assignment key value ↦ read_lines (suc n) (set_key key value out) lines
]

unfoldable pub read_env_file : Content → Result EnvFileError (List (Text × Text))
unfolding read_lines scan_lines
read_env_file no_file = err absent
read_env_file io_error = err unreadable
read_env_file (content text) = read_lines 0 [] (scan_lines text)

-- The value that the last line assigning to a key gives it.
unfoldable pub last_value : Text → List Text → Option Text
unfolding read_line trim_space equal
last_value k [] = none
last_value k (raw ∷ lines) = elim (last_value k lines) [
  | some v ↦ some v
  | none ↦ elim (read_line (trim_space raw)) [
    | assignment key value ↦ if equal key k then some value else none
    | _ ↦ none
  ]
]

or_else : Option Text → Option Text → Option Text
or_else (some v) w = some v
or_else none w = w

-- What one more line in front gives a key.
front : Line → Text → Option Text
unfolding equal
front (assignment key value) k = if equal key k then some value else none
front skipped k = none
front malformed k = none

last_value-cons :
    (k raw : Text) (lines : List Text)
    → last_value k (raw ∷ lines)
      ≡ or_else (last_value k lines) (front (read_line (trim_space raw)) k)
unfolding last_value or_else front
last_value-cons k raw lines = step (last_value k lines) (read_line (trim_space raw))
  where
    step :
        (later : Option Text) (l : Line)
        → (elim later [
          | some v ↦ some v
          | none ↦ elim l [
            | assignment key value ↦ if equal key k then some value else none
            | _ ↦ none
          ]
        ])
          ≡ or_else later (front l k)
    step (some v) l = refl
    step none skipped = refl
    step none malformed = refl
    step none (assignment key value) = refl

or_else_assoc : (a b c : Option Text) → or_else (or_else a b) c ≡ or_else a (or_else b c)
unfolding or_else
or_else_assoc none b c = refl
or_else_assoc (some v) b c = refl

put :
    (k key value : Text) (o : Option Text)
    → (if equal key k then some value else o) ≡ or_else (front (assignment key value) k) o
unfolding front or_else
put k key value o = ground arith

-- The entries after one line, and the lines left.
read_lines-step :
    (l : Line) (n : ℕ) (out : List (Text × Text)) (raw : Text) (lines : List Text)
    (m : List (Text × Text))
    → read_line (trim_space raw) ≡ l
    → read_lines n out (raw ∷ lines) ≡ ok m
    → (next : List (Text × Text)) × (read_lines (suc n) next lines ≡ ok m)
      × ((k : Text) → lookup_key k next ≡ or_else (front l k) (lookup_key k out))
unfolding read_lines front or_else
read_lines-step skipped n out raw lines m e h = (out, rw (e, read_lines) at h, λ k. refl)
read_lines-step malformed n out raw lines m e h = absurd (ground (arith, h, e))
read_lines-step (assignment key value) n out raw lines m e h = (
  set_key key value out,
  rw (e, read_lines) at h,
  λ k. lookup_key-set_key k key value out ∙ put k key value (lookup_key k out),
)

lookup_key-read_lines :
    (k : Text) (n : ℕ) (out : List (Text × Text)) (lines : List Text) {m : List (Text × Text)}
    → read_lines n out lines ≡ ok m
    → lookup_key k m ≡ or_else (last_value k lines) (lookup_key k out)
unfolding read_lines last_value or_else
lookup_key-read_lines k n out [] h = ap (lookup_key k) (sym (ok-injective out _ h))
lookup_key-read_lines k n out (raw ∷ lines) {m} h =
    let l = read_line (trim_space raw) in
    let (next, h', e) = read_lines-step l n out raw lines m refl h in
    lookup_key-read_lines k (suc n) next lines {m = m} h'
    ∙ ap (or_else (last_value k lines)) (e k)
    ∙ sym (or_else_assoc (last_value k lines) (front l k) (lookup_key k out))
    ∙ ap (λ o. or_else o (lookup_key k out)) (sym (last_value-cons k raw lines))

read_env_file-content :
    (text : Text) (m : List (Text × Text))
    → read_env_file (content text) ≡ ok m
    → read_lines 0 [] (scan_lines text) ≡ ok m
unfolding read_env_file
read_env_file-content text m h = h

-- A file that `ReadEnvFile` accepts gives each key the value of the last line that assigns to it,
-- and no other key a value.
pub lookup_key-read_env_file :
    (text k : Text) {m : List (Text × Text)}
    → read_env_file (content text) ≡ ok m
    → lookup_key k m ≡ last_value k (scan_lines text)
unfolding or_else lookup_key
lookup_key-read_env_file text k {m} h =
    lookup_key-read_lines k 0 [] (scan_lines text) {m = m} (read_env_file-content text m h)
    ∙ nothing_before (last_value k (scan_lines text))
  where
    nothing_before : (o : Option Text) → or_else o (lookup_key {V = Text} k []) ≡ o
    nothing_before none = refl
    nothing_before (some v) = refl
