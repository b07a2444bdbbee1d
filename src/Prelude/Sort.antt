-- ===== src/Prelude/Sort.antt =====
-- `Array.prototype.sort`, by insertion.
use mathlib.Core.Bool.{Bool}
use mathlib.Core.List.{List, [], ◌∷◌}
use a2a_verification_network.Prelude.Tests.{if◌then◌else◌}

module _ {ℓ} {A : Type ℓ} (le : A → A → Bool) where
  unfoldable pub insert_sorted : A → List A → List A
  insert_sorted a [] = a ∷ []
  insert_sorted a (b ∷ l) = let rest = insert_sorted a l in if le a b then a ∷ b ∷ l else b ∷ rest

  -- `Array.prototype.sort`, which is stable.
  unfoldable pub sort : List A → List A
  unfolding insert_sorted
  sort [] = []
  sort (a ∷ l) = insert_sorted a (sort l)
