-- ===== src/Tunnel/Session.antt =====
-- The session that `ssh` reads from the arguments of the tunnel: cli/internal/tunnel/tunnel.go.
use canton_localnet.Base.{
  ℕ, ◌≤◌, ◌==◌, all_true, ap, arith, ◌≡◌, refl, sym, ◌∙◌, ℤ, pos, negsuc, zero, suc, true, false,
  not, Text, lit, List, [], ◌∷◌, ◌++◌, map, Option, none, some, ok, guard, guard-eq_ok, >>=-eq_ok,
  has_prefix, is_empty, All, subst, if◌then◌else◌, ok-injective, trim_space, Has, ◌↔◌,
}
use canton_localnet.Base.Decimal.{decimal, decimal_lem, is_digit}
use canton_localnet.Base.Sorting.{Has-sort_by}
use canton_localnet.Tunnel.{
  Options, int_less, is_port, check_ports, or_defaults, sorted_ports, int_text, spec_of,
  forward_args, port_args, identity_args, destination, ssh_args, build_args, invalid_port, no_host,
}
use canton_localnet.Tunnel.Ssh.{
  Forward, Session, number, push, split_colon, forward, behind_port, behind_colon, read_forward,
  without_command, read_ssh,
}

none-some : {s : Session} → none ≡ some s → ⊥
none-some h = cc

number-decimal : (n : ℕ) → number (decimal n) ≡ some n
unfolding number
number-decimal n = let (e, d, v) = decimal_lem n in rw (e, d, v) refl

split_colon-digits :
    (s t : Text) → all_true is_digit s ≡ true → split_colon (s ++ (b':' ∷ t)) ≡ some (s, t)
unfolding split_colon push all_true
split_colon-digits [] t h = refl
split_colon-digits (c ∷ s) t h =
    rw (split_colon-digits s t (ground arith), digit_is_no_colon c (ground arith)) refl
  where
    digit_is_no_colon : (d : ℕ) → is_digit d ≡ true → (d == b':') ≡ false
    digit_is_no_colon d e = ground arith

abbrev IsForwarded : ℤ → Type 0
IsForwarded p = (n : ℕ) × (p ≡ pos n) × (1 ≤ n) × (n ≤ 65535)

-- The port number of a valid port.
pub forward_of : ℤ → Forward
unfolding lit
forward_of (pos n) = record { local = n; host = lit "localhost"; remote = n }
forward_of (negsuc n) = record { local = 0; host = lit "localhost"; remote = 0 }

read_forward-spec_of : (n : ℕ) → read_forward (spec_of (pos n)) ≡ some (forward_of (pos n))
unfolding read_forward behind_colon behind_port spec_of int_text forward_of lit
read_forward-spec_of n =
    let (e, d, v) = decimal_lem n in
    rw (split_colon-digits (decimal n) (lit "localhost:" ++ decimal n) d) (
      ap (behind_port (decimal n)) (split_host (decimal n))
      ∙ unfold forward in rw (number-decimal n) refl)
  where
    split_host : (t : Text) → split_colon (lit "localhost:" ++ t) ≡ some (lit "localhost", t)
    split_host t = unfold split_colon push lit in refl

read-forwards :
    (ports : List ℤ) (rest : List Text) (s : Session)
    → All IsForwarded ports
    → read_ssh rest ≡ some s
    → read_ssh (forward_args ports ++ rest)
      ≡ some (record s { forwards = map forward_of ports ++ s.forwards })
unfolding read_ssh forward_args
read-forwards [] rest s v h = h
read-forwards (p ∷ ports) rest s ((n, e, _, _), v) h =
    rw (read-forwards ports rest s v h, e, read_forward-spec_of n) refl

port_number : ℤ → Option ℕ
port_number (pos zero) = none
port_number (pos (suc n)) = some (suc n)
port_number (negsuc n) = none

-- What the options ask for: no remote command, the ports forwarded to the same ports of the remote
-- host itself, the port of the server if it is positive, the identity, and the settings.
pub asked : Options → Session
unfolding port_number lit forward_of
asked o = record {
  no_command = true;
  forwards = map forward_of (sorted_ports o) ++ [];
  port = port_number o.port;
  identity = if is_empty o.identity_file then none else some o.identity_file;
  settings =
      (if is_empty o.identity_file then [] else lit "IdentitiesOnly=yes" ∷ [])
      ++ lit "StrictHostKeyChecking=accept-new"
        ∷ lit "ServerAliveInterval=60"
        ∷ lit "ServerAliveCountMax=3"
        ∷ [];
  target = if is_empty o.user then o.host else o.user ++ (b'@' ∷ o.host);
}

read-port :
    (n : ℤ) (rest : List Text) (s : Session)
    → s.port ≡ none
    → read_ssh rest ≡ some s
    → read_ssh (port_args n ++ rest) ≡ some (record s { port = port_number n })
unfolding read_ssh port_args port_number int_text
read-port (pos zero) rest s e h = rw (sym e) h
read-port (pos (suc n)) rest s e h = rw (h, number-decimal (suc n)) refl
read-port (negsuc n) rest s e h = rw (sym e) h

read-identity :
    (file : Text) (rest : List Text) (s : Session)
    → s.identity ≡ none
    → read_ssh rest ≡ some s
    → read_ssh (identity_args file ++ rest)
      ≡ some (record s {
        identity = if is_empty file then none else some file;
        settings = (if is_empty file then [] else lit "IdentitiesOnly=yes" ∷ []) ++ s.settings;
      })
unfolding read_ssh identity_args
read-identity [] rest s e h = rw (sym e) h
read-identity (c ∷ file) rest s e h = rw h refl

read-dash_n :
    (rest : List Text) (s : Session)
    → read_ssh rest ≡ some s
    → read_ssh (lit "-N" ∷ rest) ≡ some (record s { no_command = true })
unfolding read_ssh without_command
read-dash_n [] s h = absurd (none-some (unfold read_ssh in h))
read-dash_n (v ∷ rest) s h = rw h refl

-- The arguments behind the identity, and what they ask for.
fixed_args : List Text → Text → List Text
unfolding lit
fixed_args extra dest =
    lit "-o"
    ∷ lit "StrictHostKeyChecking=accept-new"
    ∷ lit "-o"
    ∷ lit "ServerAliveInterval=60"
    ∷ lit "-o"
    ∷ lit "ServerAliveCountMax=3"
    ∷ (extra ++ dest ∷ [])

fixed_session : Text → Session
unfolding lit
fixed_session dest = record {
  no_command = false;
  forwards = [];
  port = none;
  identity = none;
  settings =
      lit "StrictHostKeyChecking=accept-new"
      ∷ lit "ServerAliveInterval=60"
      ∷ lit "ServerAliveCountMax=3"
      ∷ [];
  target = dest;
}

read-fixed_args :
    (dest : Text)
    → has_prefix dest (b'-' ∷ []) ≡ false
    → read_ssh (fixed_args [] dest) ≡ some (fixed_session dest)
unfolding fixed_args fixed_session read_ssh
read-fixed_args dest h = rw h refl

destination_lem :
    (o : Options) → destination o ≡ (if is_empty o.user then o.host else o.user ++ (b'@' ∷ o.host))
unfolding destination
destination_lem o = refl

read-ssh_args :
    (o : Options)
    → o.extra_args ≡ []
    → has_prefix (destination o) (b'-' ∷ []) ≡ false
    → All IsForwarded (sorted_ports o)
    → read_ssh (ssh_args o) ≡ some (asked o)
unfolding ssh_args asked fixed_session fixed_args
read-ssh_args o e h v =
    let identity = identity_args o.identity_file ++ fixed_args o.extra_args (destination o) in
    read-dash_n (forward_args (sorted_ports o) ++ (port_args o.port ++ identity)) _ (
      read-forwards (sorted_ports o) (port_args o.port ++ identity) _ v (
        read-port o.port identity _ refl (
          read-identity o.identity_file (fixed_args o.extra_args (destination o))
            (fixed_session (destination o)) refl
            (subst
              (λ x. read_ssh (fixed_args x (destination o)) ≡ some (fixed_session (destination o)))
              (sym e) (read-fixed_args (destination o) h)))))
    ∙ ap (λ t. some (record (asked o) { target = t })) (destination_lem o)

is_port-IsForwarded : (p : ℤ) → is_port p ≡ true → IsForwarded p
is_port-IsForwarded (pos n) h = (n, refl, ground arith, ground arith)
is_port-IsForwarded (negsuc n) h = cc

check_ports-All : (ports : List ℤ) (u : Unit {0}) → check_ports ports ≡ ok u → All IsForwarded ports
unfolding check_ports
check_ports-All [] u h = tt
check_ports-All (p ∷ ports) u h =
    let (x, k, r) = >>=-eq_ok (guard (is_port p) (invalid_port p)) _ {b = u} h in
    (is_port-IsForwarded p (guard-eq_ok (is_port p) (invalid_port p) k), check_ports-All ports u r)

-- Without further arguments, and with a destination that does not begin with a dash, `ssh` reads from
-- the arguments of `BuildArgs` exactly the session that the options ask for, with no remote command
-- and with each port forwarded to the same port of localhost, and the forwarded ports are those of
-- the options, or the default ones, and lie between 1 and 65535.
pub read_ssh-build_args :
    (o : Options) (args : List Text) (p : ℤ)
    → o.extra_args ≡ []
    → has_prefix (destination o) (b'-' ∷ []) ≡ false
    → build_args o ≡ ok args
    → (read_ssh args ≡ some (asked o))
      × (Has p (sorted_ports o) ↔ Has p (or_defaults o.ports))
      × All (λ q. (n : ℕ) × (q ≡ pos n) × (1 ≤ n) × (n ≤ 65535)) (sorted_ports o)
unfolding build_args
read_ssh-build_args o args p e d h =
    let (x, k, r) = >>=-eq_ok (guard (not (is_empty (trim_space o.host))) no_host) _ {b = args} h in
    let (y, l, q) = >>=-eq_ok (check_ports (sorted_ports o)) _ {b = args} r in
    let valid = check_ports-All (sorted_ports o) y l in
    (
      subst (λ a. read_ssh a ≡ some (asked o)) (ok-injective (ssh_args o) args q)
          (read-ssh_args o e d valid),
      unfold sorted_ports in Has-sort_by int_less p (or_defaults o.ports),
      valid,
    )
