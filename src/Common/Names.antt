-- ===== src/Common/Names.antt =====
-- `std::map` keyed by a string, as an association list.
use text.Mathlib.Text.{◌==◌}
use text.Mathlib.TextEquality.{eq_iff}
use text.Mathlib.TextPositions.{eq_refl}
use Prim.Native.String.{String}
use mathlib.Core.Path.{◌≡◌, refl}
use mathlib.Core.Logic.{◌≢◌}
use mathlib.Core.Option.{Option, none, some}
use mathlib.Core.List.{List, [], ◌∷◌}
use native.Mathlib.Omega.{arith}
use dbus_cplusplus.Common.Tests.{if◌then◌else◌}

module _ {ℓ} {V : Type ℓ} where
  unfoldable pub find : String → List (String × V) → Option V
  find k [] = none
  find k ((j, v) ∷ m) = if j == k then some v else find k m

  unfoldable pub insert : String → V → List (String × V) → List (String × V)
  insert k v [] = (k, v) ∷ []
  insert k v ((j, w) ∷ m) = if j == k then (k, v) ∷ m else (j, w) ∷ insert k v m

  pub find-insert :
      (k j : String) (v : V) (m : List (String × V))
      → find j (insert k v m) ≡ (if k == j then some v else find j m)
  unfolding find insert
  find-insert k j v [] = refl
  find-insert k j v ((i, w) ∷ m) =
      ground (arith, eq_iff k j, eq_iff i k, eq_iff i j, find-insert k j v m)

  pub find-insert_self :
      (k : String) (v : V) (m : List (String × V)) → find k (insert k v m) ≡ some v
  find-insert_self k v m = simp (find-insert, eq_refl)

  pub find-insert_ne :
      (k j : String) (v : V) (m : List (String × V)) → k ≢ j → find j (insert k v m) ≡ find j m
  find-insert_ne k j v m h = ground (arith, find-insert k j v m, eq_iff k j)
