-- ===== src/Tests/Order.antt =====
-- A total order on names, for the draws of the sibling module: by the codes of their characters.
use Prim.Native.Char.{code}
use text.Mathlib.TextEquality.{Char-path}
use a2a_verification_network.Prelude.{
  ◌≡◌, refl, ◌⊎◌, inl, inr, Bool, true, false, ◌==◌, ◌&&◌, ◌||◌, String, ltb, arith,
}
use a2a_verification_network.Coordinator.Fairness.{IsCollation}
use a2a_verification_network.External.{External}
use a2a_verification_network.Tests.Data.{world}

unfoldable pub name_le : String → String → Bool
name_le String.[] t = true
name_le (String.◌∷◌ c s) String.[] = false
name_le (String.◌∷◌ c s) (String.◌∷◌ d t) =
    let rest = name_le s t in ltb (code c) (code d) || code c == code d && rest

name_le-total : (s t : String) → (name_le s t ≡ true) ⊎ (name_le t s ≡ true)
unfolding name_le
name_le-total String.[] t = inl refl
name_le-total (String.◌∷◌ c s) String.[] = inr refl
name_le-total (String.◌∷◌ c s) (String.◌∷◌ d t) = ground (arith, name_le-total s t)

name_le-antisym : (s t : String) → name_le s t ≡ true → name_le t s ≡ true → s ≡ t
unfolding name_le
name_le-antisym String.[] String.[] h k = refl
name_le-antisym String.[] (String.◌∷◌ d t) h k = ground arith
name_le-antisym (String.◌∷◌ c s) String.[] h k = ground arith
name_le-antisym (String.◌∷◌ c s) (String.◌∷◌ d t) h k =
    ground (arith, name_le-antisym s t, Char-path c d)

name_le_trans : (s t u : String) → name_le s t ≡ true → name_le t u ≡ true → name_le s u ≡ true
unfolding name_le
name_le_trans String.[] t u h k = refl
name_le_trans (String.◌∷◌ c s) String.[] u h k = ground arith
name_le_trans (String.◌∷◌ c s) (String.◌∷◌ d t) String.[] h k = ground arith
name_le_trans (String.◌∷◌ c s) (String.◌∷◌ d t) (String.◌∷◌ e u) h k =
    ground (arith, name_le_trans s t u)

-- The environment with this order.
abbrev pub ordered : External
ordered = record world { locale_le = name_le }

pub ordered-IsCollation : IsCollation ordered
ordered-IsCollation = record {
  total = name_le-total;
  trans = name_le_trans;
  antisym = λ a b m n. name_le-antisym a b;
}
