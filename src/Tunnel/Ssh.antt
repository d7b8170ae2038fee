-- ===== src/Tunnel/Ssh.antt =====
-- How `ssh` reads its arguments, up to the destination: the options -N, -L, -p, -i and -o.
use canton_localnet.Base.{
  ℕ, Bool, ◌&&◌, ◌==◌, all_true, true, false, not, Text, lit, List, [], ◌∷◌, Option, none, some,
  equal, has_prefix, is_empty, if◌then◌else◌,
}
use canton_localnet.Base.Decimal.{is_digit, value_from}

-- A port of this machine that `ssh` forwards to a port of a host that the other side knows.
pub record Forward : Type 0 where
  pub local : ℕ
  pub host : Text
  pub remote : ℕ

pub record Session : Type 0 where
  pub no_command : Bool
  pub forwards : List Forward
  pub port : Option ℕ
  pub identity : Option Text
  pub settings : List Text
  pub target : Text

-- A number in decimal digits.
unfoldable pub number : Text → Option ℕ
unfolding value_from all_true
number t = if not (is_empty t) && all_true is_digit t then some (value_from 0 t) else none

-- The text before the first colon and the text behind it.
unfoldable pub push : ℕ → Option (Text × Text) → Option (Text × Text)
push c none = none
push c (some (s, t)) = some (c ∷ s, t)

unfoldable pub split_colon : Text → Option (Text × Text)
unfolding push
split_colon [] = none
split_colon (c ∷ cs) =
    let rest = push c (split_colon cs) in if c == b':' then some ([], cs) else rest

unfoldable pub forward : Option ℕ → Text → Option ℕ → Option Forward
forward (some a) host (some b) = some (record { local = a; host = host; remote = b })
forward (some a) host none = none
forward none host b = none

unfoldable pub behind_port : Text → Option (Text × Text) → Option Forward
unfolding forward number
behind_port p none = none
behind_port p (some (host, q)) = forward (number p) host (number q)

unfoldable pub behind_colon : Option (Text × Text) → Option Forward
unfolding behind_port split_colon
behind_colon none = none
behind_colon (some (p, rest)) = behind_port p (split_colon rest)

-- `port:host:port`
unfoldable pub read_forward : Text → Option Forward
unfolding behind_colon split_colon
read_forward t = behind_colon (split_colon t)

-- An option with its value, in front of what follows.
unfoldable pub add : Text → Text → Session → Option Session
unfolding equal lit read_forward number
add flag value s =
    if equal flag (lit "-L")
    then elim (read_forward value) [
      | none ↦ none
      | some f ↦ some (record s { forwards = f ∷ s.forwards })
    ]
    else if equal flag (lit "-p")
    then elim (number value) [ none ↦ none | some n ↦ some (record s { port = some n }) ]
    else if equal flag (lit "-i")
    then some (record s { identity = some value })
    else if equal flag (lit "-o")
    then some (record s { settings = value ∷ s.settings })
    else none

unfoldable pub add_to : Text → Text → Option Session → Option Session
unfolding add
add_to flag value none = none
add_to flag value (some s) = add flag value s

unfoldable pub without_command : Option Session → Option Session
without_command none = none
without_command (some s) = some (record s { no_command = true })

-- The options up to the destination, which does not begin with a dash.
unfoldable pub read_ssh : List Text → Option Session
unfolding add_to without_command has_prefix equal lit
read_ssh [] = none
read_ssh (a ∷ []) =
    if has_prefix a (b'-' ∷ [])
    then none
    else some (record {
      no_command = false;
      forwards = [];
      port = none;
      identity = none;
      settings = [];
      target = a;
    })
read_ssh (a ∷ v ∷ rest) =
    let skipped = without_command (read_ssh (v ∷ rest)) in
    let taken = add_to a v (read_ssh rest) in if equal a (lit "-N") then skipped else taken
