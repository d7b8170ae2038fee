-- ===== src/Tunnel.antt =====
-- The `ssh` arguments of the tunnel: cli/internal/tunnel/tunnel.go. Starting the process is a parameter.
pub mod Ssh
pub mod Session
use canton_localnet.Base.{
  ℕ, ℤ, pos, negsuc, zero, suc, Bool, true, false, not, ◌||◌, ◌&&◌, Text, lit, List, [], ◌∷◌, ◌++◌,
  Option, none, some, Result, ok, err, ◌>>=◌, ◌>>◌, guard, ltb, is_empty, trim_space, sort_by,
  if◌then◌else◌,
}
use canton_localnet.Base.Decimal.{decimal}

-- The ports that are forwarded by default.
abbrev pub default_ports : List ℤ
default_ports =
    pos 10975 ∷ pos 11975 ∷ pos 12975 ∷ pos 13975 ∷ pos 14975 ∷ pos 11901 ∷ pos 7575 ∷ pos 8082 ∷ []

pub record Options : Type 0 where
  pub host : Text
  pub user : Text
  pub identity_file : Text
  pub port : ℤ
  pub ports : List ℤ
  pub binary : Text
  pub extra_args : List Text

pub data TunnelError : Type 0 where
  no_host : TunnelError
  invalid_port : ℤ → TunnelError
  ssh_missing : TunnelError
  cancelled : TunnelError
  ssh_failed : TunnelError

abbrev pub int_less : ℤ → ℤ → Bool
int_less (pos a) (pos b) = ltb a b
int_less (pos a) (negsuc b) = false
int_less (negsuc a) (pos b) = true
int_less (negsuc a) (negsuc b) = ltb b a

-- `0 < p && p <= 65535`
abbrev pub is_port : ℤ → Bool
is_port (pos n) = ltb 0 n && not (ltb 65535 n)
is_port (negsuc n) = false

unfoldable pub check_ports : List ℤ → Result TunnelError (Unit {0})
check_ports [] = ok tt
check_ports (p ∷ ports) = guard (is_port p) (invalid_port p) >> check_ports ports

abbrev pub or_defaults : List ℤ → List ℤ
or_defaults [] = default_ports
or_defaults (p ∷ ports) = p ∷ ports

unfoldable pub sorted_ports : Options → List ℤ
unfolding sort_by
sorted_ports opts = sort_by int_less (or_defaults opts.ports)

-- `%d`
unfoldable pub int_text : ℤ → Text
unfolding decimal
int_text (pos n) = decimal n
int_text (negsuc n) = b'-' ∷ decimal (suc n)

-- `%d:localhost:%d`
unfoldable pub spec_of : ℤ → Text
unfolding int_text lit
spec_of p = int_text p ++ (lit ":localhost:" ++ int_text p)

unfoldable pub forward_args : List ℤ → List Text
unfolding spec_of lit
forward_args [] = []
forward_args (p ∷ ports) = lit "-L" ∷ spec_of p ∷ forward_args ports

unfoldable pub port_args : ℤ → List Text
unfolding int_text lit
port_args (pos zero) = []
port_args (pos (suc n)) = lit "-p" ∷ int_text (pos (suc n)) ∷ []
port_args (negsuc n) = []

unfoldable pub identity_args : Text → List Text
unfolding lit
identity_args file =
    if is_empty file then [] else lit "-i" ∷ file ∷ lit "-o" ∷ lit "IdentitiesOnly=yes" ∷ []

unfoldable pub destination : Options → Text
destination opts = if is_empty opts.user then opts.host else opts.user ++ (b'@' ∷ opts.host)

-- The arguments behind the checks.
unfoldable pub ssh_args : Options → List Text
unfolding sorted_ports forward_args port_args identity_args destination lit
ssh_args opts =
    lit "-N"
    ∷ (forward_args (sorted_ports opts)
        ++ (port_args opts.port
            ++ (identity_args opts.identity_file
                ++ (lit "-o"
                    ∷ lit "StrictHostKeyChecking=accept-new"
                    ∷ lit "-o"
                    ∷ lit "ServerAliveInterval=60"
                    ∷ lit "-o"
                    ∷ lit "ServerAliveCountMax=3"
                    ∷ (opts.extra_args ++ destination opts ∷ [])))))

-- `BuildArgs`
unfoldable pub build_args : Options → Result TunnelError (List Text)
unfolding trim_space sorted_ports check_ports ssh_args
build_args opts = do
  guard (not (is_empty (trim_space opts.host))) no_host
  check_ports (sorted_ports opts)
  ok (ssh_args opts)

-- What the process does: it succeeds, or fails, with its context cancelled or not.
pub data Outcome : Type 0 where
  succeeded : Outcome
  failed : Bool → Outcome

abbrev pub ended : Outcome → Result TunnelError (Unit {0})
ended succeeded = ok tt
ended (failed true) = err cancelled
ended (failed false) = err ssh_failed

unfoldable pub binary_of : Options → Text
unfolding lit
binary_of opts = if is_empty opts.binary then lit "ssh" else opts.binary

-- `Open`; `found` tells whether `LookPath` finds a binary.
unfoldable pub open_tunnel :
    (Text → Bool) → (Text → List Text → Outcome) → Options → Result TunnelError (Unit {0})
unfolding binary_of build_args
open_tunnel found run opts = do
  guard (found (binary_of opts)) ssh_missing
  args ← build_args opts
  ended (run (binary_of opts) args)
