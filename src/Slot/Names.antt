-- ===== src/Slot/Names.antt =====
-- Which inputs name a slot.
use mathlib.Core.Path.{subst}
use canton_localnet.Base.{
  ◌≡◌, refl, ◌⊎◌, inl, inr, ◌↔◌, true, Text, ok, arith, Has, All, All-Has, Bool-cases, equal_iff,
  all_true, ◌∙◌, sym, replace_char, ◌++◌, List, [], ◌∷◌, some, ℕ, ◌≤◌, ◌+◌, Bool, not, ◌&&◌, leb,
  ltb, ◌==◌, if◌then◌else◌, trim_space, ap,
}
use canton_localnet.Slot.{lower_char, to_lower, Slot, all, normalize, parse, matches, find_slot}

-- A character that stands for a character of a name: the same one, its upper-case letter, an
-- underscore for the dash, or one of the two characters outside ASCII whose lower case is an `i` and
-- a `k`.
abbrev pub Writes : ℕ → ℕ → Type 0
Writes n c =
    (c ≡ n)
    ⊎ ((b'A' ≤ c) × (c ≤ b'Z') × (n ≡ c + 32))
    ⊎ ((c ≡ b'_') × (n ≡ b'-'))
    ⊎ ((c ≡ 0x130) × (n ≡ b'i'))
    ⊎ ((c ≡ 0x212A) × (n ≡ b'k'))

-- The text writes the name, character by character.
abbrev pub Spells : Text → Text → Type 0
Spells [] [] = Unit
Spells [] (c ∷ cs) = ⊥
Spells (n ∷ ns) [] = ⊥
Spells (n ∷ ns) (c ∷ cs) = Writes n c × Spells ns cs

-- Without the white space around it, the input writes one of the slot's two names.
abbrev pub Names : Text → Slot → Type 0
Names t s = Spells s.canonical (trim_space t) ⊎ Spells s.short (trim_space t)

-- The characters of a name are not upper-case letters or underscores.
abbrev is_name_char : ℕ → Bool
is_name_char n = not (leb b'A' n && leb n b'Z') && not (n == b'_') && ltb n 128

-- What `normalize` makes of one character.
abbrev normal : ℕ → Text
normal c = if lower_char c == b'_' then b'-' ∷ [] else lower_char c ∷ []

normal-Writes : (n c : ℕ) → is_name_char n ≡ true → (normal c ≡ n ∷ []) ↔ Writes n c
unfolding lower_char
normal-Writes n c h = ground arith

normal-one : (c : ℕ) → (m : ℕ) × (normal c ≡ m ∷ [])
unfolding lower_char
normal-one c = elim (Bool-cases (lower_char c == b'_')) [
  | inl e ↦ (b'-', rw e refl)
  | inr e ↦ (lower_char c, rw e refl)
]

cons_nil : {m : ℕ} {ms : Text} → m ∷ ms ≡ [] → ⊥
cons_nil h = cc

nil_cons : {m : ℕ} {ms : Text} → [] ≡ m ∷ ms → ⊥
nil_cons h = cc

tail-eq : {m n : ℕ} {ms ns : Text} → (m ∷ ms ≡ n ∷ ns) ↔ ((m ≡ n) × (ms ≡ ns))
tail-eq {m} {n} {ms} {ns} = (λ h. (cc, cc), λ (a, b). cc)

lowered-cons :
    (c m : ℕ) (cs : Text)
    → normal c ≡ m ∷ []
    → replace_char b'_' (b'-' ∷ []) (to_lower (c ∷ cs))
      ≡ m ∷ replace_char b'_' (b'-' ∷ []) (to_lower cs)
unfolding replace_char to_lower
lowered-cons c m cs h = ap (λ x. x ++ replace_char b'_' (b'-' ∷ []) (to_lower cs)) h

lowered_nil : replace_char b'_' (b'-' ∷ []) (to_lower []) ≡ []
unfolding replace_char to_lower
lowered_nil = refl

lowered-Spells :
    (ns cs : Text)
    → All (λ n. is_name_char n ≡ true) ns
    → (replace_char b'_' (b'-' ∷ []) (to_lower cs) ≡ ns) ↔ Spells ns cs
lowered-Spells [] [] h = (λ e. tt, λ e. lowered_nil)
lowered-Spells (n ∷ ns) [] h =
    (λ e. absurd (nil_cons {m = n} {ms = ns} (sym lowered_nil ∙ e)), λ e. absurd e)
lowered-Spells [] (c ∷ cs) h =
    let (m, k) = normal-one c in
    (λ e. absurd (cons_nil (sym (lowered-cons c m cs k) ∙ e)), λ e. absurd e)
lowered-Spells (n ∷ ns) (c ∷ cs) h =
    let (m, k) = normal-one c in
    let (to, from) = normal-Writes n c h.0 in
    let (down, up) = lowered-Spells ns cs h.1 in
    let q = lowered-cons c m cs k in
    (
      λ e. let (a, b) = (tail-eq).0 (sym q ∙ e) in (to (k ∙ ap (λ x. x ∷ []) a), down b),
      λ (w, r). q ∙ (tail-eq).1 (((tail-eq).0 (sym k ∙ from w)).0, up r),
    )

-- The input normalises to one of the slot's two names.
abbrev Normal : Text → Slot → Type 0
Normal t s = (normalize t ≡ normalize s.canonical) ⊎ (normalize t ≡ normalize s.short)

matches-Normal : (t : Text) (s : Slot) → matches (normalize t) s ≡ true → Normal t s
unfolding matches
matches-Normal t s h = ground (
  arith,
  equal_iff (normalize s.canonical) (normalize t),
  equal_iff (normalize s.short) (normalize t),
)

find_slot-Has :
    (t : Text) (slots : List Slot) {s : Slot}
    → find_slot (normalize t) slots ≡ some s
    → Has s slots × Normal t s
unfolding find_slot
find_slot-Has t [] h = cc
find_slot-Has t (r ∷ slots) {s} h = elim (Bool-cases (matches (normalize t) r)) [
  | inl hit ↦
      let e : r ≡ s = ground arith in (inl (sym e), subst (Normal t) e (matches-Normal t r hit))
  | inr miss ↦ let (m, n) = find_slot-Has t slots {s = s} (rw miss at h) in (inr m, n)
]

parse_sound : (t : Text) {s : Slot} → parse t ≡ ok s → Has s all × Normal t s
unfolding parse
parse_sound t {s} h = find_slot-Has t all {s = s} (ground arith)

parse-names : All (λ s. (parse s.canonical ≡ ok s) × (parse s.short ≡ ok s)) all
unfolding parse normalize find_slot all
parse-names = ((refl, refl), ((refl, refl), ((refl, refl), ((refl, refl), ((refl, refl), tt)))))

parse-normalize :
    (t u : Text) {s : Slot} → normalize t ≡ normalize u → parse u ≡ ok s → parse t ≡ ok s
unfolding parse
parse-normalize t u e h = ground arith

-- The names of the slots are in normal form.
names_normal :
    All
      (λ s.
        (normalize s.canonical ≡ s.canonical)
        × (normalize s.short ≡ s.short)
        × (all_true is_name_char s.canonical ≡ true)
        × (all_true is_name_char s.short ≡ true))
      all
unfolding normalize all all_true
names_normal = (
  (refl, refl, refl, refl),
  (
    (refl, refl, refl, refl),
    ((refl, refl, refl, refl), ((refl, refl, refl, refl), ((refl, refl, refl, refl), tt))),
  ),
)

all_true-All : (ns : Text) → all_true is_name_char ns ≡ true → All (λ n. is_name_char n ≡ true) ns
unfolding all_true
all_true-All [] k = tt
all_true-All (n ∷ ns) k = (ground arith, all_true-All ns (ground arith))

normalize-Spells :
    (t name : Text)
    → normalize name ≡ name
    → all_true is_name_char name ≡ true
    → (normalize t ≡ normalize name) ↔ Spells name (trim_space t)
unfolding normalize
normalize-Spells t name e h =
    let (to, from) = lowered-Spells name (trim_space t) (all_true-All name h) in
    (λ k. to (k ∙ e), λ k. from k ∙ sym e)

-- `Parse` returns a slot exactly if the slot is in the table and the input, without the white
-- space around it, writes the slot's canonical or short name: character by character the same, or
-- the upper-case letter for the lower-case one, or an underscore for the dash, or U+0130 for an `i`
-- or U+212A for a `k`, which are in lower case these letters.
pub parse_iff : (t : Text) (s : Slot) → (parse t ≡ ok s) ↔ (Has s all × Names t s)
parse_iff t s = (forth, back)
  where
    forth : parse t ≡ ok s → Has s all × Names t s
    forth h =
        let (m, n) = parse_sound t {s = s} h in
        let (c, r, i, j) = All-Has _ all s names_normal m in
        (
          m,
          elim n [
            | inl e ↦ inl ((normalize-Spells t s.canonical c i).0 e)
            | inr e ↦ inr ((normalize-Spells t s.short r j).0 e)
          ],
        )

    back : Has s all × Names t s → parse t ≡ ok s
    back (m, n) =
        let (c, r, i, j) = All-Has _ all s names_normal m in
        let (p, q) = All-Has _ all s parse-names m in
        elim n [
          | inl e ↦ parse-normalize t s.canonical ((normalize-Spells t s.canonical c i).1 e) p
          | inr e ↦ parse-normalize t s.short ((normalize-Spells t s.short r j).1 e) q
        ]
