-- ===== src/Prune/Report.antt =====
-- The plan as `rights prune` shows it: `writePlan`, `writeRightLine` and `reportClean`, as the lines
-- that they write.
pub mod Rows
pub mod Shown
use canton_localnet.Base.{
  ℕ, zero, suc, ◌+◌, ◌-◌, Bool, true, false, not, Text, lit, List, [], ◌∷◌, ◌++◌, map, length,
  is_empty, if◌then◌else◌,
}
use canton_localnet.Base.Decimal.{decimal}
use canton_localnet.Rights.{
  Right, Policy, Plan, Group, admin_kind, act_as_kind, read_as_kind, keeps, revoke_groups,
}
use canton_localnet.Prune.{Target, Source, flag, primary, hint}

unfoldable pub spaces : ℕ → Text
spaces zero = []
spaces (suc n) = b' ' ∷ spaces n

-- `%-*s` and `%-24s`
unfoldable pub pad_right : ℕ → Text → Text
unfolding spaces
pad_right width s = s ++ spaces (width - length s)

-- `%5d`
unfoldable pub pad_left : ℕ → Text → Text
unfolding spaces
pad_left width s = spaces (width - length s) ++ s

unfoldable pub rights_key_width : ℕ
rights_key_width = 16

unfoldable pub key_line : Text → Text → Text
unfolding pad_right rights_key_width
key_line key value = pad_right rights_key_width key ++ (b' ' ∷ value)

-- `writeRightLine`
unfoldable pub right_line : Text → Text → Text → Text
unfolding pad_right
right_line prefix kind party =
    if is_empty party then prefix ++ kind else prefix ++ (pad_right 24 kind ++ (b' ' ∷ party))

unfoldable pub source_text : Source → Text
unfolding lit
source_text flag = lit "--preserve-party"
source_text primary = lit "the user's primary party, read from the participant"
source_text hint = lit "the slot's party hint (the participant reports no primary party)"

unfoldable pub preserving : Policy → Text
unfolding lit
preserving p =
    admin_kind
    ++ (lit ", and "
        ++ (act_as_kind
            ++ (lit " on "
                ++ (p.party_prefix
                    ++ (lit "*"
                        ++ (if p.preserve_read_as
                            then lit ", and "
                              ++ (read_as_kind ++ (lit " on " ++ (p.party_prefix ++ lit "*")))
                            else []))))))

unfoldable pub head_lines : Text → Text → Target → Plan → List Text
unfolding lit key_line preserving source_text decimal
head_lines slot_name json_api t plan =
    key_line (lit "slot") slot_name
    ∷ key_line (lit "json_api") json_api
    ∷ key_line (lit "user") t.user_id
    ∷ key_line (lit "preserving") (preserving t.policy)
    ∷ key_line (lit "preserve source") (source_text t.preserve_source)
    ∷ key_line (lit "total rights") (decimal (length plan.keep + length plan.revoke))
    ∷ key_line (lit "preserved") (decimal (length plan.keep))
    ∷ []

unfoldable pub keep_line : Right → Text
unfolding lit
keep_line r = right_line (lit "    keep    ") r.kind r.party

unfoldable pub revoke_line : Right → Text
unfolding lit
revoke_line r = right_line (lit "    revoke  ") r.kind r.party

unfoldable pub group_line : Group → Text
unfolding lit pad_left decimal
group_line g =
    right_line (lit "    revoke " ++ (pad_left 5 (decimal g.count) ++ lit "  ")) g.kind g.family

unfoldable pub plan_lines : Text → Text → Target → Plan → Bool → List Text
unfolding lit
plan_lines slot_name json_api t plan full =
    head_lines slot_name json_api t plan
    ++ (map keep_line plan.keep
        ++ (key_line (lit "to revoke") (decimal (length plan.revoke))
            ∷ (if full then map revoke_line plan.revoke else map group_line (revoke_groups plan))))

unfoldable pub clean_lines : Policy → Plan → List Text
unfolding lit
clean_lines p plan =
    (if not (keeps plan admin_kind)
      then (lit "warning: the user holds no "
          ++ (admin_kind
              ++ lit
                  " right — this may not be the validator user, so this is not evidence the user is clean."))
        ∷ []
      else [])
    ++ ((if not (keeps plan act_as_kind)
          then (lit "warning: the user holds no "
              ++ (act_as_kind
                  ++ (lit " right on "
                      ++ (p.party_prefix
                          ++ lit
                              "* — the preserved party may be wrong for this slot, so this is not evidence the user is clean."))))
            ∷ []
          else [])
        ++ (lit "nothing ephemeral left — the user is already clean." ∷ []))
