-- ===== src/Tests/Forwarding.antt =====
-- The options of a tunnel, and the theorem on its arguments applied to them.
use canton_localnet.Base.{
  ℕ, ◌≤◌, ◌≡◌, refl, pos, lit, [], ◌∷◌, some, ok, Has, ◌↔◌, All, sort_by, insert_by, trim_space,
  trim_left_by, trim_right_by, is_space, has_prefix,
}
use canton_localnet.Tunnel.{
  Options, or_defaults, sorted_ports, destination, ssh_args, build_args, check_ports,
}
use canton_localnet.Tunnel.Ssh.{read_ssh}
use canton_localnet.Tunnel.Session.{asked, read_ssh-build_args}

abbrev options : Options
options = record {
  host = lit "vm";
  user = lit "me";
  identity_file = lit "key";
  port = pos 2222;
  ports = pos 7575 ∷ pos 11975 ∷ pos 8082 ∷ [];
  binary = [];
  extra_args = [];
}

built : build_args options ≡ ok (ssh_args options)
unfolding build_args trim_space trim_left_by trim_right_by is_space lit sorted_ports sort_by
    insert_by check_ports
built = refl

read_ssh-build_args_example :
    (read_ssh (ssh_args options) ≡ some (asked options))
    × (Has (pos 7575) (sorted_ports options) ↔ Has (pos 7575) (or_defaults options.ports))
    × All (λ q. (n : ℕ) × (q ≡ pos n) × (1 ≤ n) × (n ≤ 65535)) (sorted_ports options)
read_ssh-build_args_example =
    read_ssh-build_args options (ssh_args options) (pos 7575) refl
      (unfold destination lit has_prefix in refl) built
