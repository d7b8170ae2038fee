-- ===== src/Tests/Funding.antt =====
-- A wallet that answers with a price and two balances, and the theorems on the wallet's amounts and on
-- `TapAtLeast` applied to it.
use canton_localnet.Base.{
  ◌≡◌, refl, ℕ, ◌+◌, ◌*◌, ◌^◌, ◌≤◌, ◌<◌, Bool, true, false, Text, lit, List, [], ◌∷◌, Option, none,
  some, ok, arith, equal, inl, inr, Has, cut, cut_prefix, all_true, trim_left_by, trim_right_by,
}
use canton_localnet.Rights.Json.{
  Value, object, field, empty, string, array, item, end, get, as_string, as_slice, items,
}
use canton_localnet.Base.Decimal.{value_from, digits_of, decimal}
use canton_localnet.Wallet.Amount.{
  Decimal, validate_amount, parse_decimal, at_least, round_up_usd, divisor, positive_decimal,
  cut_dot, digits, trim_zeros, zeros, drop, padded, units_up, render_units,
}
use canton_localnet.Wallet.Client.{
  Request, read_balance, read_rounds, tap_request, Reply, replied, Round, Service, pick_round,
  next_round, send, body_of, text_field, non_empty, tap, balance, decode_round, decode_rounds,
  rounds_of, check_price, amulet_price, price_at,
}
use canton_localnet.Wallet.Client.Price.{pick_round-latest}
use canton_localnet.Wallet.Fund.{tap_at_least, tap_amount, gap_num, gap_den, tap_once, fund}
use canton_localnet.Wallet.Fund.Taps.{taps, tap_at_least-taps, tap_at_least-Reaches, Reaches}
use canton_localnet.Wallet.Fund.Cover.{tap_amount-covers}

abbrev target : Decimal
target = record { units = 10; scale = 0 }

abbrev held : Decimal
held = record { units = 25; scale = 1 }

abbrev price : Decimal
price = record { units = 5; scale = 3 }

price_read : parse_decimal (lit "0.005") ≡ some price
unfolding parse_decimal positive_decimal cut_dot digits value_from cut cut_prefix all_true lit
price_read = refl

tap_amount-covers_example :
    (d : Decimal) × (validate_amount (tap_amount target held (lit "0.005")) ≡ ok tt)
    × (parse_decimal (tap_amount target held (lit "0.005")) ≡ some d)
    × (10 * 10 ^ 1 * 5 * 10 ^ d.scale
        ≤ 25 * 10 ^ 0 * 5 * 10 ^ d.scale + d.units * (10 ^ 0 * 10 ^ 1 * 10 ^ 3))
    × (d.units * gap_den target held price * divisor
        < (gap_num target held price * divisor + gap_den target held price) * 10 ^ d.scale)
tap_amount-covers_example =
    tap_amount-covers target held price (lit "0.005") price_read (omega arith)
      (unfold at_least in refl)

abbrev round : Text → Text → Round
round at amount = record { amulet_price = amount; opens_at = at }

abbrev rounds : List Round
rounds =
    round (lit "A") (lit "0.005")
    ∷ round (lit "B") (lit "0.006")
    ∷ round (lit "C") (lit "0.007")
    ∷ []

-- Three times, the last of which is yet to come.
abbrev parse_time : Text → Option ℕ
parse_time t = if_a (equal t (lit "A")) (equal t (lit "B"))
  where
    if_a : Bool → Bool → Option ℕ
    if_a true b = some 10
    if_a false true = some 20
    if_a false false = some 90

b_opens : parse_time (lit "B") ≡ some 20
unfolding equal lit
b_opens = refl

picked : pick_round parse_time 50 rounds 0 [] ≡ ok (lit "0.006")
unfolding pick_round next_round equal lit
picked = refl

pick_round-latest_example :
    (x : Round) × (at : ℕ) × Has x rounds
    × (x.amulet_price ≡ lit "0.006")
    × (parse_time x.opens_at ≡ some at)
    × (at ≤ 50)
    × (20 ≤ at)
pick_round-latest_example =
    pick_round-latest parse_time 50 rounds (lit "0.006") (round (lit "B") (lit "0.006")) 20
      (unfold lit in (refl, (refl, (refl, tt)))) picked (unfold lit in refl) (inr (inl refl))
      b_opens (omega arith)

abbrev text_document : Text → Text → Value
text_document key t = object (field key (string t) empty)

abbrev price_document : Value
price_document = object (
    field (lit "open_mining_rounds")
      (array (
        item
          (object (
            field (lit "contract")
              (object (
                field (lit "payload")
                  (object (
                    field (lit "amuletPrice") (string (lit "0.005"))
                      (field (lit "opensAt") (string (lit "A")) empty)))
                  empty))
              empty))
          end))
      empty)

-- The balance is 2.5 before the first tap, and 10 after it.
abbrev service_reply : List Request → Reply
service_reply (tap_request asked ∷ rs) =
    replied 200 (some (text_document (lit "contract_id") (lit "c")))
service_reply (read_rounds ∷ rs) = replied 200 (some price_document)
service_reply (read_balance ∷ []) =
    replied 200 (some (text_document (lit "effective_unlocked_qty") (lit "2.5")))
service_reply (read_balance ∷ r ∷ rs) =
    replied 200 (some (text_document (lit "effective_unlocked_qty") (lit "10.0")))
service_reply _ = replied 500 none

abbrev service : Service
service = record { reply = service_reply; clock = λ rs. 50; parse_time = parse_time }

abbrev requests : List Request
requests = read_balance ∷ tap_request (lit "0.0375") ∷ read_rounds ∷ read_balance ∷ []

funded : tap_at_least service (lit "10") ≡ (ok (lit "10.0"), requests)
unfolding tap_at_least fund tap_once tap_amount gap_num gap_den at_least parse_decimal
    positive_decimal cut_dot digits value_from cut cut_prefix all_true lit validate_amount
    trim_zeros trim_left_by trim_right_by round_up_usd units_up render_units padded decimal
    digits_of zeros drop send body_of text_field non_empty tap balance decode_round decode_rounds
    rounds_of check_price amulet_price price_at pick_round next_round equal get as_string as_slice
    items
funded = refl

tap_at_least-taps_example : taps (tap_at_least service (lit "10")).1 ≤ 3
tap_at_least-taps_example = tap_at_least-taps service (lit "10")

tap_at_least-Reaches_example :
    (goal : Decimal) × (parse_decimal (lit "10") ≡ some goal) × Reaches goal (lit "10.0")
tap_at_least-Reaches_example = tap_at_least-Reaches service (lit "10") (lit "10.0") requests funded
