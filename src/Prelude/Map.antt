-- ===== src/Prelude/Map.antt =====
-- A map with texts as keys, as an association list: `find` and `insert_or_assign` of the standard
-- maps. The order of the entries is that of their first insertion.
use mathlib.Core.Path.{◌≡◌, refl}
use mathlib.Core.Option.{Option, none, some}
use mathlib.Core.List.{List, [], ◌∷◌}
use native.Mathlib.Omega.{arith}
use cpp_essence.Prelude.Tests.{if◌then◌else◌}
use cpp_essence.Prelude.Text.{Bytes, equal, equal_iff}

module _ {ℓ} {V : Type ℓ} where
  unfoldable pub find : Bytes → List (Bytes × V) → Option V
  find k [] = none
  find k ((j, v) ∷ m) = if equal j k then some v else find k m

  unfoldable pub insert_or_assign : Bytes → V → List (Bytes × V) → List (Bytes × V)
  insert_or_assign k v [] = (k, v) ∷ []
  insert_or_assign k v ((j, w) ∷ m) =
      if equal j k then (j, v) ∷ m else (j, w) ∷ insert_or_assign k v m

  pub find-insert_or_assign :
      (k j : Bytes) (v : V) (m : List (Bytes × V))
      → find j (insert_or_assign k v m) ≡ (if equal k j then some v else find j m)
  unfolding find insert_or_assign
  find-insert_or_assign k j v [] = refl
  find-insert_or_assign k j v ((i, w) ∷ m) =
      ground (arith, equal_iff k j, equal_iff i k, equal_iff i j, find-insert_or_assign k j v m)
