-- ===== src/Base/Order.antt =====
-- The order of Go strings is a strict total order.
use mathlib.Core.Path.{◌≡◌}
use mathlib.Core.Logic.{◌⊎◌}
use mathlib.Core.Bool.{true, false}
use mathlib.Core.List.{[], ◌∷◌}
use native.Mathlib.Omega.{arith}
use canton_localnet.Base.Strings.{Text, less}

pub less_asym : (s t : Text) → less s t ≡ true → less t s ≡ false
unfolding less
less_asym (x ∷ s) (y ∷ t) h = ground (arith, less_asym s t)
less_asym _ _ h = ground arith

pub less_split : (r s t : Text) → less t r ≡ true → (less t s ≡ true) ⊎ (less s r ≡ true)
unfolding less
less_split (x ∷ r) (y ∷ s) (z ∷ t) h = ground (arith, less_split r s t)
less_split r [] [] h = ground arith
less_split [] [] (z ∷ t) h = ground arith
less_split [] (y ∷ s) [] h = ground arith
less_split [] (y ∷ s) (z ∷ t) h = ground arith
less_split (x ∷ r) [] (z ∷ t) h = ground arith
less_split (x ∷ r) (y ∷ s) [] h = ground arith

pub less_total : (s t : Text) → less s t ≡ false → less t s ≡ false → s ≡ t
unfolding less
less_total (x ∷ s) (y ∷ t) h k = ground (arith, less_total s t)
less_total _ _ h k = ground arith
