-- ===== src/Config/Discover.antt =====
-- The walks up the directories: `Discover` and `Resolve` in cli/internal/yamlconfig/yamlconfig.go,
-- and `FindRoot` in cli/internal/repo/repo.go. A clean absolute path is the list of its names, the
-- last one first; the root is the empty list.
pub mod Nearest
use canton_localnet.Base.{
  Bool, true, false, Text, lit, List, [], ◌∷◌, ◌++◌, Option, none, some, Result, ok, err, ◌>>=◌,
  wrap, if◌then◌else◌, is_empty,
}
use canton_localnet.Base.Files.{Stat, missing, failed, file, dir, join_path}
use canton_localnet.Config.{Config, defaults}

pub data WalkError : Type 0 where
  directory_unresolved : WalkError
  stat_failed : Text → WalkError
  root_not_found : WalkError

pub data LoadError (E : Type 0) : Type 0 where
  walk : WalkError → LoadError E
  load : E → LoadError E

abbrev pub file_name : Text
unfolding lit
file_name = lit "canton-localnet.yaml"

-- The text of a path, which is empty for the root, so that a name joined to it is right.
unfoldable pub path_text : List Text → Text
unfolding join_path
path_text [] = []
path_text (name ∷ parents) = join_path (path_text parents) name

-- The path that `FindRoot` returns.
unfoldable pub root_text : List Text → Text
unfolding lit path_text
root_text [] = lit "/"
root_text (name ∷ parents) = path_text (name ∷ parents)

unfoldable pub config_candidate : List Text → Text
unfolding join_path path_text
config_candidate at = join_path (path_text at) file_name

unfoldable pub root_candidate : List Text → Text
unfolding join_path path_text lit
root_candidate at = join_path (join_path (path_text at) (lit "compose")) (lit "modules")

-- What one turn of the loop does with what `os.Stat` reports.
pub data Turn : Type 0 where
  found broken higher : Turn

unfoldable pub config_turn : Stat → Turn
config_turn file = found
config_turn failed = broken
config_turn missing = higher
config_turn dir = higher

unfoldable pub root_turn : Stat → Turn
root_turn dir = found
root_turn failed = broken
root_turn missing = higher
root_turn file = higher

-- Where a walk ends.
pub data End : Type 0 where
  found_at broken_at : List Text → End
  exhausted : End

unfoldable pub stop : Turn → List Text → End → End
stop found at above = found_at at
stop broken at above = broken_at at
stop higher at above = above

-- The loop: each directory and then its parent, up to the root.
unfoldable pub climb : (List Text → Turn) → List Text → End
unfolding stop
climb turn [] = stop (turn []) [] exhausted
climb turn (name ∷ parents) = stop (turn (name ∷ parents)) (name ∷ parents) (climb turn parents)

unfoldable pub discovered : End → Result WalkError (Option Text)
discovered (found_at at) = ok (some (config_candidate at))
discovered (broken_at at) = err (stat_failed (config_candidate at))
discovered exhausted = ok none

unfoldable pub root_found : End → Result WalkError Text
root_found (found_at at) = ok (root_text at)
root_found (broken_at at) = err (stat_failed (root_candidate at))
root_found exhausted = err root_not_found

-- `absolute` is `filepath.Abs`, on the working directory for an empty start.
unfoldable pub absolute_of : (Text → Option (List Text)) → Text → Result WalkError (List Text)
absolute_of absolute start = elim (absolute start) [
  | none ↦ err directory_unresolved
  | some at ↦ ok at
]

unfoldable pub discover :
    (Text → Option (List Text)) → (Text → Stat) → Text → Result WalkError (Option Text)
unfolding climb config_candidate config_turn
discover absolute stat start = do
  at ← absolute_of absolute start
  discovered (climb (λ d. config_turn (stat (config_candidate d))) at)

unfoldable pub find_root :
    (Text → Option (List Text)) → (Text → Stat) → Text → Result WalkError Text
unfolding climb root_candidate root_turn
find_root absolute stat start = do
  at ← absolute_of absolute start
  root_found (climb (λ d. root_turn (stat (root_candidate d))) at)

-- `Resolve`: the configuration and the file it is from, if any; `load_file` is `Load`.
unfoldable pub load_with_path :
    {E : Type 0} → (Text → Result E Config) → Text → Result (LoadError E) (Config × Option Text)
load_with_path load_file path = do cfg ← wrap load (load_file path); ok (cfg, some path)

unfoldable pub resolve_config :
    {E : Type 0}
    → (Text → Result E Config)
    → (Text → Option (List Text))
    → (Text → Stat)
    → Text
    → Text
    → Result (LoadError E) (Config × Option Text)
unfolding load_with_path discover
resolve_config load_file absolute stat explicit_path start =
    if is_empty explicit_path
    then (do
      path ← wrap walk (discover absolute stat start)
      (elim path [
        | none ↦ ok (defaults, none)
        | some found_path ↦ load_with_path load_file found_path
      ]))
    else load_with_path load_file explicit_path
