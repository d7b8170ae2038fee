-- ===== src/Base/Files.antt =====
-- What `os.Stat` reports of a path, and paths.
use mathlib.Core.List.{◌∷◌, ◌++◌}
use canton_localnet.Base.Strings.{Text}

-- `missing` is an error that is `fs.ErrNotExist`, and `failed` any other.
pub data Stat : Type 0 where
  missing failed file dir : Stat

-- `filepath.Join(base, part)`, for a base that is a clean path other than the root.
unfoldable pub join_path : Text → Text → Text
join_path base part = base ++ (b'/' ∷ part)
