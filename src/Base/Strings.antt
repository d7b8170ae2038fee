-- ===== src/Base/Strings.antt =====
-- Go strings as lists of code points, and what the program uses of package strings. The text of
-- a string is taken to be valid UTF-8, so that a position in it never splits a character.
use Prim.Native.Char.{code}
use Prim.Native.String.{String}
use Prim.Native.Nat.{ℕ}
use mathlib.Core.Path.{◌≡◌, refl}
use mathlib.Core.Bool.{Bool, true, false, not, ◌&&◌, ◌||◌}
use mathlib.Core.Option.{Option, none, some}
use mathlib.Core.List.{List, [], ◌∷◌, ◌++◌}
use mathlib.Core.Logic.{◌↔◌}
use native.Mathlib.Omega.{arith}
use canton_localnet.Base.Lists.{any, Distinct, Has-any}
use canton_localnet.Base.Nat.{ltb, leb, ◌==◌, if◌then◌else◌}

abbrev pub Text : Type 0
Text = List ℕ

-- The code points of a literal.
unfoldable pub lit : String → Text
lit String.[] = []
lit (String.◌∷◌ c s) = code c ∷ lit s

unfoldable pub equal : Text → Text → Bool
equal [] [] = true
equal (x ∷ xs) (y ∷ ys) = x == y && equal xs ys
equal _ _ = false

pub equal_iff : (a b : Text) → (equal a b ≡ true) ↔ (a ≡ b)
unfolding equal
equal_iff (x ∷ a) (y ∷ b) = ground (arith, equal_iff a b)
equal_iff _ _ = ground arith

-- `s < t`, by code points, which is the order of the bytes.
unfoldable pub less : Text → Text → Bool
less [] [] = false
less [] (y ∷ ys) = true
less (x ∷ xs) [] = false
less (x ∷ xs) (y ∷ ys) = ltb x y || (x == y && less xs ys)

-- `s == ""`
abbrev pub is_empty : Text → Bool
is_empty [] = true
is_empty (_ ∷ _) = false

-- `strings.HasPrefix(s, prefix)`
unfoldable pub has_prefix : Text → Text → Bool
has_prefix s [] = true
has_prefix [] (p ∷ ps) = false
has_prefix (c ∷ cs) (p ∷ ps) = c == p && has_prefix cs ps

-- The rest of `s` behind a prefix, if it has it.
unfoldable pub cut_prefix : Text → Text → Option Text
cut_prefix s [] = some s
cut_prefix [] (p ∷ ps) = none
cut_prefix (c ∷ cs) (p ∷ ps) = let rest = cut_prefix cs ps in if c == p then rest else none

pub cut_prefix-append : (p rest : Text) → cut_prefix (p ++ rest) p ≡ some rest
unfolding cut_prefix
cut_prefix-append [] rest = refl
cut_prefix-append (c ∷ p) rest = ground (arith, cut_prefix-append p rest)

-- `strings.TrimPrefix(s, prefix)`
unfoldable pub trim_prefix : Text → Text → Text
unfolding cut_prefix
trim_prefix s p = elim (cut_prefix s p) [ none ↦ s | some rest ↦ rest ]

-- The part of `s` before a suffix, if it has it.
unfoldable pub cut_suffix : Text → Text → Option Text
unfolding equal
cut_suffix [] t = if equal [] t then some [] else none
cut_suffix (c ∷ cs) t =
    let rest = cut_suffix cs t in
    if equal (c ∷ cs) t then some [] else elim rest [ none ↦ none | some front ↦ some (c ∷ front) ]

-- `strings.HasSuffix(s, suffix)`
unfoldable pub has_suffix : Text → Text → Bool
unfolding cut_suffix
has_suffix s t = elim (cut_suffix s t) [ none ↦ false | some _ ↦ true ]

-- `strings.TrimSuffix(s, suffix)`
unfoldable pub trim_suffix : Text → Text → Text
unfolding cut_suffix
trim_suffix s t = elim (cut_suffix s t) [ none ↦ s | some front ↦ front ]

-- `strings.Contains(s, sub)`
unfoldable pub contains : Text → Text → Bool
unfolding has_prefix
contains [] sub = has_prefix [] sub
contains (c ∷ cs) sub = let rest = contains cs sub in if has_prefix (c ∷ cs) sub then true else rest

-- `strings.Cut(s, sep)`: the parts around the first separator.
unfoldable pub cut : Text → Text → Option (Text × Text)
unfolding cut_prefix
cut [] sep = elim (cut_prefix [] sep) [ none ↦ none | some after ↦ some ([], after) ]
cut (c ∷ cs) sep =
    let rest = cut cs sep in
    elim (cut_prefix (c ∷ cs) sep) [
      | some after ↦ some ([], after)
      | none ↦ elim rest [ none ↦ none | some (before, after) ↦ some (c ∷ before, after) ]
    ]

-- `unicode.IsSpace`
unfoldable pub is_space : ℕ → Bool
is_space c =
    (leb 9 c && leb c 13)
    || c == 32
    || c == 0x85
    || c == 0xA0
    || c == 0x1680
    || (leb 0x2000 c && leb c 0x200A)
    || c == 0x2028
    || c == 0x2029
    || c == 0x202F
    || c == 0x205F
    || c == 0x3000

unfoldable pub trim_left_by : (ℕ → Bool) → Text → Text
trim_left_by p [] = []
trim_left_by p (c ∷ cs) = let rest = trim_left_by p cs in if p c then rest else c ∷ cs

unfoldable pub trim_right_by : (ℕ → Bool) → Text → Text
trim_right_by p [] = []
trim_right_by p (c ∷ cs) = elim (trim_right_by p cs) [
  | [] ↦ if p c then [] else c ∷ []
  | d ∷ ds ↦ c ∷ d ∷ ds
]

-- `strings.TrimSpace`
unfoldable pub trim_space : Text → Text
unfolding trim_left_by trim_right_by is_space
trim_space s = trim_right_by is_space (trim_left_by is_space s)

-- `strings.ReplaceAll(s, old, new)` for an `old` of one character.
unfoldable pub replace_char : ℕ → Text → Text → Text
replace_char old new [] = []
replace_char old new (c ∷ cs) = (if c == old then new else c ∷ []) ++ replace_char old new cs

-- A character in front of the parts behind it; the flag says that it is the separator.
unfoldable pub split_step : Bool → ℕ → List Text → List Text
split_step true c parts = [] ∷ parts
split_step false c [] = (c ∷ []) ∷ []
split_step false c (part ∷ parts) = (c ∷ part) ∷ parts

-- `strings.Split(s, sep)` for a separator of one character.
unfoldable pub split : ℕ → Text → List Text
unfolding split_step
split sep [] = [] ∷ []
split sep (c ∷ cs) = split_step (c == sep) c (split sep cs)

-- `strings.Join(parts, sep)`
unfoldable pub join : Text → List Text → Text
join sep [] = []
join sep (part ∷ []) = part
join sep (part ∷ more ∷ parts) = part ++ sep ++ join sep (more ∷ parts)

pub split_self : (sep : ℕ) → (sep == sep) ≡ true
split_self sep = ground arith

-- The first line of a text without a separator in it.
pub split-append :
    (sep : ℕ) (line rest : Text)
    → any (λ c. c == sep) line ≡ false
    → split sep (line ++ (sep ∷ rest)) ≡ line ∷ split sep rest
unfolding split any
split-append sep [] rest h = rw (split_self sep) refl
split-append sep (c ∷ line) rest h = ground (arith, split-append sep line rest)

pub split-cons :
    (sep : ℕ) (s : Text) → (part : Text) × (parts : List Text) × (split sep s ≡ part ∷ parts)
unfolding split
split-cons sep [] = ([], [], refl)
split-cons sep (c ∷ s) = step (c == sep) (split sep s)
  where
    step :
        (e : Bool) (parts : List Text)
        → (p : Text) × (ps : List Text) × (split_step e c parts ≡ p ∷ ps)
    step true parts = ([], parts, refl)
    step false [] = (c ∷ [], [], refl)
    step false (part ∷ parts) = (c ∷ part, parts, refl)

-- No text stands in the list twice, as a test.
unfoldable pub no_repeat : List Text → Bool
unfolding any equal
no_repeat [] = true
no_repeat (t ∷ ts) = not (any (equal t) ts) && no_repeat ts

pub no_repeat-Distinct : (ts : List Text) → no_repeat ts ≡ true → Distinct ts
no_repeat-Distinct [] h = tt
no_repeat-Distinct (t ∷ ts) h = (
  λ m. absurd (ground (arith, fresh, Has-any (equal t) ts t m ((equal_iff t t).1 refl))),
  no_repeat-Distinct ts (unfold no_repeat in ground arith),
)
  where
    fresh : any (equal t) ts ≡ false
    fresh = unfold no_repeat in ground arith
