-- ===== src/Rights/Family.antt =====
-- `Family`: the hint that a party's allocator used.
use canton_localnet.Base.{
  ℕ, ◌+◌, ◌≤◌, Bool, true, false, not, ◌&&◌, ◌||◌, [], ◌∷◌, ◌++◌, none, some, Text, lit, has_prefix,
  cut, is_empty, leb, ◌==◌, if◌then◌else◌, length, any, All, ◌≡◌, refl, arith, equal,
}

unfoldable pub is_hex : ℕ → Bool
is_hex c = (leb b'0' c && leb c b'9') || (leb b'a' c && leb c b'f')

-- `[0-9a-f]{8,}::.*$` behind `n` digits: the digits go on, or `::` and no newline follow.
unfoldable pub hex_then_namespace : ℕ → Text → Bool
unfolding is_hex
hex_then_namespace n [] = false
hex_then_namespace n (c ∷ cs) =
    let rest = hex_then_namespace (n + 1) cs in
    if is_hex c
    then rest
    else leb 8 n && has_prefix (c ∷ cs) (b':' ∷ b':' ∷ []) && not (any (λ d. d == b'\n') cs)

-- `ephemeralPartySuffix` matches at the start of the text.
unfoldable pub ephemeral_suffix : Text → Bool
unfolding hex_then_namespace
ephemeral_suffix [] = false
ephemeral_suffix (c ∷ cs) = c == b'-' && hex_then_namespace 0 cs

-- `ReplaceAllString(party, "")`: a match runs to the end, so the first is the only one.
unfoldable pub collapse : Text → Text
unfolding ephemeral_suffix
collapse [] = []
collapse (c ∷ cs) = let rest = collapse cs in if ephemeral_suffix (c ∷ cs) then [] else c ∷ rest

unfoldable pub family : Text → Text
unfolding collapse
family party =
    if is_empty party
    then []
    else if not (equal (collapse party) party)
    then collapse party ++ lit "-*"
    else elim (cut party (lit "::")) [ none ↦ party | some (hint, _) ↦ hint ]

module _ (hex namespace : Text) where
  abbrev pub IsHint : Text → Type 0
  IsHint hint = All (λ c. (c == b':') ≡ false) hint

  abbrev suffix : Text
  suffix = b'-' ∷ (hex ++ (b':' ∷ b':' ∷ namespace))

  no_match_in_hint :
      (n : ℕ) (hint : Text) → IsHint hint → hex_then_namespace n (hint ++ suffix) ≡ false
  unfolding hex_then_namespace has_prefix
  no_match_in_hint n [] h = ground arith
  no_match_in_hint n (c ∷ hint) h = ground (arith, no_match_in_hint (n + 1) hint h.1)

  match_hex :
      (n : ℕ) (digits : Text)
      → All (λ c. is_hex c ≡ true) digits
      → 8 ≤ n + length digits
      → any (λ d. d == b'\n') namespace ≡ false
      → hex_then_namespace n (digits ++ (b':' ∷ b':' ∷ namespace)) ≡ true
  unfolding hex_then_namespace has_prefix any
  match_hex n [] a l e = ground arith
  match_hex n (c ∷ digits) a l e = ground (arith, match_hex (n + 1) digits a.1)

  module _ (digits : All (λ c. is_hex c ≡ true) hex) (enough : 8 ≤ length hex)
      (line : any (λ d. d == b'\n') namespace ≡ false) where
    collapse-hint : (hint : Text) → IsHint hint → collapse (hint ++ suffix) ≡ hint
    unfolding collapse
    collapse-hint [] h = rw (match_hex 0 hex digits (omega arith) line) refl
    collapse-hint (c ∷ hint) h =
        rw (no_match_in_hint 0 hint h.1, collapse-hint hint h.1) (ground arith)

append-ne : (hint : Text) (c : ℕ) (cs : Text) → equal hint (hint ++ (c ∷ cs)) ≡ false
unfolding equal
append-ne [] c cs = refl
append-ne (x ∷ hint) c cs = ground (arith, append-ne hint c cs)

-- A party allocated as `<hint>-<hex>::<namespace>`, with eight or more lower-case hex digits, is
-- counted under `<hint>-*`, whatever its digits and namespace, if the hint has no colon and the
-- namespace has no newline.
pub family-ephemeral :
    (hint hex namespace : Text)
    → All (λ c. (c == b':') ≡ false) hint
    → All (λ c. is_hex c ≡ true) hex
    → 8 ≤ length hex
    → any (λ d. d == b'\n') namespace ≡ false
    → family (hint ++ (b'-' ∷ (hex ++ (b':' ∷ b':' ∷ namespace)))) ≡ hint ++ lit "-*"
unfolding family
family-ephemeral hint hex namespace h digits enough line =
    rw
      (
        collapse-hint hex namespace digits enough line hint h,
        append-ne hint b'-' (hex ++ (b':' ∷ b':' ∷ namespace)),
        non_empty hint,
      )
      refl
  where
    non_empty : (s : Text) → is_empty (s ++ (b'-' ∷ (hex ++ (b':' ∷ b':' ∷ namespace)))) ≡ false
    non_empty [] = refl
    non_empty (x ∷ s) = refl
