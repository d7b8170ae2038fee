-- ===== src/Slot.antt =====
-- The slot table and its names: cli/internal/slot/slot.go.
pub mod Names
pub mod EnvFile
pub mod Resolve
pub mod Api
use canton_localnet.Base.{
  ℕ, Bool, true, false, ◌||◌, ◌&&◌, List, [], ◌∷◌, ◌++◌, Option, none, some, map, Text, String, lit,
  equal, trim_space, replace_char, is_empty, Result, ok, err, ◌>>=◌, leb, ◌==◌, if◌then◌else◌, ◌+◌,
  ◌-◌, filter, join,
}

-- `AuthKind`: a string type with two values in use; `other` is any further string.
pub data AuthKind : Type 0 where
  oauth2 hs256 : AuthKind
  other : Text → AuthKind

pub record Slot : Type 0 where
  pub canonical : Text
  pub short : Text
  pub realm : Text
  pub port_prefix : Text
  pub auth_kind : AuthKind
  pub validator_user_id : Text
  pub pqs : Bool
  pub pqs_by_default : Bool

unfoldable pub json_ledger_port : Slot → Text
json_ledger_port s = s.port_prefix ++ lit "975"

unfoldable pub ledger_grpc_port : Slot → Text
ledger_grpc_port s = s.port_prefix ++ lit "901"

unfoldable pub admin_grpc_port : Slot → Text
admin_grpc_port s = s.port_prefix ++ lit "902"

unfoldable pub validator_admin_port : Slot → Text
validator_admin_port s = s.port_prefix ++ lit "903"

unfoldable pub web_ui_port : Slot → Text
web_ui_port s = s.port_prefix ++ lit "000"

-- `unicode.ToUpper` on the ASCII letters: it is applied to canonical slot names only.
unfoldable pub upper_char : ℕ → ℕ
upper_char c = if leb b'a' c && leb c b'z' then c - 32 else c

unfoldable pub to_upper : Text → Text
unfolding upper_char
to_upper s = map upper_char s

unfoldable pub env_prefix : Slot → Text
unfolding to_upper replace_char
env_prefix s = replace_char b'-' (b'_' ∷ []) (to_upper s.canonical)

unfoldable pub sv_canonical : Text
unfolding lit
sv_canonical = lit "sv-validator-1"

unfoldable pub sv_validator : Slot
unfolding lit sv_canonical
sv_validator = record {
  canonical = sv_canonical;
  short = lit "sv";
  realm = [];
  port_prefix = lit "10";
  auth_kind = hs256;
  validator_user_id = [];
  pqs = true;
  pqs_by_default = false;
}

unfoldable pub a_validator : Slot
unfolding lit
a_validator = record {
  canonical = lit "a-validator-1";
  short = lit "a";
  realm = lit "AValidator1";
  port_prefix = lit "11";
  auth_kind = oauth2;
  validator_user_id = lit "c87743ab-80e0-4b83-935a-4c0582226691";
  pqs = true;
  pqs_by_default = true;
}

unfoldable pub b_validator : Slot
unfolding lit
b_validator = record {
  canonical = lit "b-validator-1";
  short = lit "b";
  realm = lit "BValidator1";
  port_prefix = lit "12";
  auth_kind = oauth2;
  validator_user_id = lit "97bb6cef-a7a9-410b-ba8c-ada08451a5c9";
  pqs = true;
  pqs_by_default = true;
}

unfoldable pub c_validator : Slot
unfolding lit
c_validator = record {
  canonical = lit "c-validator-1";
  short = lit "c";
  realm = lit "CValidator1";
  port_prefix = lit "13";
  auth_kind = oauth2;
  validator_user_id = lit "f902df23-9d11-4836-94c1-b9b584112755";
  pqs = true;
  pqs_by_default = true;
}

unfoldable pub d_validator : Slot
unfolding lit
d_validator = record {
  canonical = lit "d-validator-1";
  short = lit "d";
  realm = lit "DValidator1";
  port_prefix = lit "14";
  auth_kind = oauth2;
  validator_user_id = lit "d82c7c58-f453-4961-9c34-4dd539994264";
  pqs = false;
  pqs_by_default = false;
}

-- The package variable `all`, which `All` copies.
unfoldable pub all : List Slot
unfolding sv_validator a_validator b_validator c_validator d_validator
all = sv_validator ∷ a_validator ∷ b_validator ∷ c_validator ∷ d_validator ∷ []

unfoldable pub canonicals : List Text
unfolding all
canonicals = map (λ s. s.canonical) all

-- `slotsWhere`
unfoldable pub slots_where : (Slot → Bool) → List Slot
unfolding all filter
slots_where keep = filter keep all

unfoldable pub pqs_slots : List Slot
unfolding slots_where
pqs_slots = slots_where (λ s. s.pqs)

unfoldable pub pqs_default_slots : List Slot
unfolding slots_where
pqs_default_slots = slots_where (λ s. s.pqs_by_default)

unfoldable pub join_canonicals : List Slot → Text
unfolding join lit
join_canonicals slots = join (lit ", ") (map (λ s. s.canonical) slots)

-- `unicode.ToLower` on the ASCII letters and on the two other characters that it takes to one,
-- U+0130 and U+212A. Every further character stays outside ASCII, so it never meets a slot name.
unfoldable pub lower_char : ℕ → ℕ
lower_char c =
    if leb b'A' c && leb c b'Z'
    then c + 32
    else if c == 0x130
    then b'i'
    else if c == 0x212A
    then b'k'
    else c

unfoldable pub to_lower : Text → Text
unfolding lower_char
to_lower s = map lower_char s

unfoldable pub normalize : Text → Text
unfolding to_lower trim_space replace_char
normalize s = replace_char b'_' (b'-' ∷ []) (to_lower (trim_space s))

pub data ParseError : Type 0 where
  input_empty : ParseError
  unknown_slot : Text → ParseError

-- The test of the loop in `Parse`.
unfoldable pub matches : Text → Slot → Bool
unfolding normalize equal
matches normalized s =
    equal (normalize s.canonical) normalized || equal (normalize s.short) normalized

unfoldable pub find_slot : Text → List Slot → Option Slot
unfolding matches
find_slot normalized [] = none
find_slot normalized (s ∷ slots) =
    let rest = find_slot normalized slots in if matches normalized s then some s else rest

unfoldable pub parse : Text → Result ParseError Slot
parse input =
    if is_empty (normalize input)
    then err input_empty
    else elim (find_slot (normalize input) all) [ none ↦ err (unknown_slot input) | some s ↦ ok s ]
