-- ===== src/Prune/Report/Rows.antt =====
-- The form of the lines that `writeRightLine` in cli/cmd/canton-localnet/rights.go writes.
use canton_localnet.Base.{
  zero, suc, ◌-◌, lit, ◌++◌, sym, ◌∙◌, length, is_empty, all_true, All, ℕ, ◌≤◌, ◌≡◌, ◌⊎◌, refl, ap,
  inl, inr, true, false, Text, List, [], ◌∷◌, map, arith,
}
use mathlib.Core.List.{append_assoc, append-nil}
use canton_localnet.Rights.{Right, Group}
use canton_localnet.Base.Decimal.{decimal, decimal_lem, is_digit, value_from}
use canton_localnet.Prune.Report.{revoke_line, group_line, right_line, pad_right, pad_left, spaces}

abbrev pub IsBlank : Text → Type 0
IsBlank = All (λ c. c ≡ b' ')

-- The line has the head, the kind and, behind spaces, the party; without a party, it may end with
-- the kind.
abbrev pub IsRow : Text → Text → Text → Text → Type 0
IsRow head kind party line =
    (gap : Text) × (line ≡ head ++ (kind ++ (gap ++ party)))
    × IsBlank gap
    × ((1 ≤ length gap) ⊎ (party ≡ []))

-- One line for each right, in order.
abbrev pub AreRows : List Right → List Text → Type 0
AreRows [] [] = Unit
AreRows [] (line ∷ lines) = ⊥
AreRows (r ∷ rights) [] = ⊥
AreRows (r ∷ rights) (line ∷ lines) =
    IsRow (lit "    revoke  ") r.kind r.party line × AreRows rights lines

spaces-IsBlank : (n : ℕ) → IsBlank (spaces n)
unfolding spaces
spaces-IsBlank zero = tt
spaces-IsBlank (suc n) = (refl, spaces-IsBlank n)

IsBlank-snoc : (s : Text) → IsBlank s → IsBlank (s ++ (b' ' ∷ [])) × (1 ≤ length (s ++ (b' ' ∷ [])))
unfolding length
IsBlank-snoc [] h = ((refl, tt), omega arith)
IsBlank-snoc (c ∷ s) (e, h) = let (q, l) = IsBlank-snoc s h in ((e, q), omega (arith, l))

right_line-IsRow : (head kind party : Text) → IsRow head kind party (right_line head kind party)
unfolding right_line pad_right
right_line-IsRow head kind [] = ([], ap (λ x. head ++ x) (sym (append-nil kind)), tt, inr refl)
right_line-IsRow head kind (c ∷ party) =
    let (blank, l) = IsBlank-snoc (spaces (24 - length kind)) (spaces-IsBlank _) in
    (
      spaces (24 - length kind) ++ (b' ' ∷ []),
      ap (λ x. head ++ x)
          (append_assoc kind (spaces (24 - length kind)) (b' ' ∷ (c ∷ party))
            ∙ ap (λ x. kind ++ x)
                (sym (append_assoc (spaces (24 - length kind)) (b' ' ∷ []) (c ∷ party)))),
      blank,
      inl l,
    )

pub map-AreRows : (rights : List Right) → AreRows rights (map revoke_line rights)
unfolding revoke_line
map-AreRows [] = tt
map-AreRows (r ∷ rights) =
    (right_line-IsRow (lit "    revoke  ") r.kind r.party, map-AreRows rights)

-- The line of a group: the count in decimal digits, the kind and the family.
abbrev pub IsGroupRow : ℕ → Text → Text → Text → Type 0
IsGroupRow count kind fam line =
    (front digits : Text) × IsBlank front
    × (is_empty digits ≡ false)
    × (all_true is_digit digits ≡ true)
    × (value_from 0 digits ≡ count)
    × IsRow (lit "    revoke " ++ ((front ++ digits) ++ lit "  ")) kind fam line

pub group_line-IsGroupRow : (g : Group) → IsGroupRow g.count g.kind g.family (group_line g)
unfolding group_line pad_left
group_line-IsGroupRow g =
    let (some_digit, all_digits, value) = decimal_lem g.count in
    (
      spaces (5 - length (decimal g.count)),
      decimal g.count,
      spaces-IsBlank _,
      some_digit,
      all_digits,
      value,
      right_line-IsRow _ g.kind g.family,
    )
