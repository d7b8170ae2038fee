-- ===== src/Slot/Resolve/Layers.antt =====
-- The layers of a value, the first one that has it on top: the environment, the configuration file and
-- the compose file, over the defaults of cli/internal/slot/resolve.go.
use canton_localnet.Base.{
  ◌≡◌, Text, List, [], ◌∷◌, Option, none, some, is_empty, trim_space, lookup_key, if◌then◌else◌,
  arith,
}
use canton_localnet.Slot.Resolve.{EnvLookup, env_or, file_or, env_is_set, value_or_zero}

-- A variable, or an entry of the compose file, that holds more than white space.
unfoldable pub given : Option Text → Option Text
unfolding trim_space
given none = none
given (some v) = if is_empty (trim_space v) then none else some v

unfoldable pub not_empty : Text → Option Text
not_empty [] = none
not_empty (c ∷ cs) = some (c ∷ cs)

-- The value of the first layer that has one.
unfoldable pub first_of : List (Option Text) → Text → Text
first_of [] default = default
first_of (none ∷ layers) default = first_of layers default
first_of (some v ∷ layers) default = v

pub first_of-env :
    (lookup : EnvLookup) (key below default : Text) (layers : List (Option Text))
    → below ≡ first_of layers default
    → env_or lookup key below ≡ first_of (given (lookup key) ∷ layers) default
unfolding env_or env_is_set value_or_zero given first_of
first_of-env lookup key below default layers h = ground arith

pub first_of-file :
    (env : List (Text × Text)) (key default : Text)
    → file_or env key default ≡ first_of (given (lookup_key key env) ∷ []) default
unfolding file_or given first_of
first_of-file env key default = ground arith
