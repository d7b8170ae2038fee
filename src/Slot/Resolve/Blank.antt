-- ===== src/Slot/Resolve/Blank.antt =====
-- Blank environment variables.
use canton_localnet.Base.{
  arith, ◌≡◌, refl, ap, Text, List, none, some, ok, is_empty, trim_space, if◌then◌else◌,
}
use canton_localnet.Slot.{Slot, AuthKind, oauth2, hs256, other}
use canton_localnet.Slot.EnvFile.{Content}
use canton_localnet.Slot.Resolve.{
  EnvLookup, Endpoints, env_is_set, env_or, pick, base_endpoints, with_oauth2, with_hs256,
  with_auth, resolve, value_or_zero,
}

-- The environment without its blank variables.
unfoldable pub set_only : EnvLookup → EnvLookup
unfolding trim_space
set_only lookup key = elim (lookup key) [
  | none ↦ none
  | some v ↦ if is_empty (trim_space v) then none else some v
]

env_or-set_only :
    (lookup : EnvLookup) (k f : Text) → env_or (set_only lookup) k f ≡ env_or lookup k f
unfolding env_or env_is_set set_only value_or_zero
env_or-set_only lookup k f = ground arith

base-set_only :
    (s : Slot) (lookup : EnvLookup) → base_endpoints s (set_only lookup) ≡ base_endpoints s lookup
unfolding base_endpoints
base-set_only s lookup = simp (env_or-set_only lookup)

oauth2-set_only :
    (s : Slot) (lookup : EnvLookup) (env : List (Text × Text)) (out : Endpoints)
    → with_oauth2 s (set_only lookup) env out ≡ with_oauth2 s lookup env out
unfolding with_oauth2 pick
oauth2-set_only s lookup env out = simp (env_or-set_only lookup)

hs256-set_only :
    (s : Slot) (lookup : EnvLookup) (out : Endpoints)
    → with_hs256 s (set_only lookup) out ≡ with_hs256 s lookup out
unfolding with_hs256
hs256-set_only s lookup out = simp (env_or-set_only lookup)

auth-set_only :
    (k : AuthKind) (s : Slot) (lookup : EnvLookup) (env : List (Text × Text)) (out : Endpoints)
    → with_auth k s (set_only lookup) env out ≡ with_auth k s lookup env out
unfolding with_auth
auth-set_only oauth2 s lookup env out = ap ok (oauth2-set_only s lookup env out)
auth-set_only hs256 s lookup env out = ap ok (hs256-set_only s lookup out)
auth-set_only (other t) s lookup env out = refl

-- An environment variable that holds only white space resolves as one that is not set.
pub resolve-set_only :
    (files : Text → Content) (s : Slot) (root : Text) (lookup : EnvLookup)
    → resolve files s root (set_only lookup) ≡ resolve files s root lookup
unfolding resolve
resolve-set_only files s root lookup =
    simp (env_or-set_only lookup, base-set_only s lookup, auth-set_only)
