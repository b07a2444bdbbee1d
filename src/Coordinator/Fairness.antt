-- ===== src/Coordinator/Fairness.antt =====
-- The weighted draw: the order of the candidates, and the size of the selection.
use mathlib.Core.List.{Permᴰ}
use a2a_verification_network.Prelude.{
  insert_sorted, sort, ℕ, All, subst, suc, ◌≡◌, refl, ◌∙◌, ap, min, ◌⊎◌, Bool, true, List, [], ◌∷◌,
  String, filter, map, take, length, ltb, length-map, length-take, arith,
}
use a2a_verification_network.External.{External}
use a2a_verification_network.Validators.Service.{EligibleValidator}
use a2a_verification_network.Coordinator.Draw.{Drawn, draw, drawn_le, select_weighted}

-- `localeCompare` is a consistent comparison of texts, and tells apart the texts that match the UUID
-- pattern: these have hexadecimal digits and dashes only. Other texts that differ may compare as equal.
pub record IsCollation (x : External) : Type 0 where
  pub total : (a b : String) → (x.locale_le a b ≡ true) ⊎ (x.locale_le b a ≡ true)
  pub trans :
      (a b c : String) → x.locale_le a b ≡ true → x.locale_le b c ≡ true → x.locale_le a c ≡ true
  pub antisym :
      (a b : String)
      → x.is_uuid a ≡ true
      → x.is_uuid b ≡ true
      → x.locale_le a b ≡ true
      → x.locale_le b a ≡ true
      → a ≡ b

module _ {ℓ} {A : Type ℓ} (le : A → A → Bool)
    (total : (a b : A) → (le a b ≡ true) ⊎ (le b a ≡ true))
    (trans : (a b c : A) → le a b ≡ true → le b c ≡ true → le a c ≡ true) where
  insert_sorted_comm :
      (a b : A) (l : List A)
      → (le a b ≡ true → le b a ≡ true → a ≡ b)
      → insert_sorted le a (insert_sorted le b l) ≡ insert_sorted le b (insert_sorted le a l)
  unfolding insert_sorted
  insert_sorted_comm a b [] antisym = ground (arith, total a b, antisym)
  insert_sorted_comm a b (c ∷ l) antisym = ground (
    arith,
    total a b,
    antisym,
    trans a b c,
    trans b a c,
    total a c,
    total b c,
    insert_sorted_comm a b l antisym,
  )

module _ {ℓ} {A : Type ℓ} (P : A → Type 0) where
  All-perm : {xs ys : List A} → Permᴰ xs ys → All P xs → All P ys
  All-perm Permᴰ.nil h = tt
  All-perm (Permᴰ.cons e p) (h, hs) = (subst P e h, All-perm p hs)
  All-perm (Permᴰ.swap e f) (h, (k, hs)) = (subst P f k, (subst P e h, hs))
  All-perm (Permᴰ.trans p r) h = All-perm r (All-perm p h)

module _ {ℓ} {A : Type ℓ} (le : A → A → Bool) where
  length-insert_sorted : (a : A) (l : List A) → length (insert_sorted le a l) ≡ suc (length l)
  unfolding insert_sorted
  length-insert_sorted a [] = refl
  length-insert_sorted a (b ∷ l) = ground (arith, length-insert_sorted a l)

  pub length-sort : (l : List A) → length (sort le l) ≡ length l
  unfolding sort
  length-sort [] = refl
  length-sort (a ∷ l) = length-insert_sorted a (sort le l) ∙ ap suc (length-sort l)

-- The candidate's name is a UUID.
abbrev pub IsNamed : External → EligibleValidator → Type 0
IsNamed x c = x.is_uuid c.id ≡ true

module _ (x : External) (o : IsCollation x) where
  drawn_le-total : (a b : Drawn) → (drawn_le x a b ≡ true) ⊎ (drawn_le x b a ≡ true)
  drawn_le-total a b = ground (arith, o.total a.id b.id)

  drawn_le_trans :
      (a b c : Drawn) → drawn_le x a b ≡ true → drawn_le x b c ≡ true → drawn_le x a c ≡ true
  drawn_le_trans a b c h k = ground (arith, o.trans a.id b.id c.id)

  drawn_le-antisym :
      (a b : Drawn)
      → x.is_uuid a.id ≡ true
      → x.is_uuid b.id ≡ true
      → drawn_le x a b ≡ true
      → drawn_le x b a ≡ true
      → a ≡ b
  drawn_le-antisym a b m n h k = ground (arith, o.antisym a.id b.id)

  -- The candidates with some weight, in the order of their draws.
  ranked : String → List EligibleValidator → List Drawn
  ranked seed cs = sort (drawn_le x) (map (draw x seed) (filter (λ c. ltb 0 c.weight) cs))

  ranked-perm :
      (seed : String) {cs ds : List EligibleValidator}
      → Permᴰ cs ds
      → All (IsNamed x) cs
      → ranked seed cs ≡ ranked seed ds
  unfolding ranked sort
  ranked-perm seed Permᴰ.nil named = refl
  ranked-perm seed (Permᴰ.cons e p) named = ground (arith, ranked-perm seed p named.1)
  ranked-perm seed (Permᴰ.swap {a} {b} {l = l} e f) (m, (n, named)) = ground (
    arith,
    insert_sorted_comm (drawn_le x) drawn_le-total drawn_le_trans (draw x seed a) (draw x seed b)
        (ranked seed l) (drawn_le-antisym (draw x seed a) (draw x seed b) m n),
  )
  ranked-perm seed (Permᴰ.trans p r) named =
      ranked-perm seed p named ∙ ranked-perm seed r (All-perm (IsNamed x) p named)

  -- Whoever holds the same candidates draws the same committee: with names that are UUIDs, the selection
  -- is the same for every order of the candidates.
  pub select_weighted-perm :
      (count : ℕ) (seed : String) {cs ds : List EligibleValidator}
      → Permᴰ cs ds
      → All (IsNamed x) cs
      → select_weighted x cs count seed ≡ select_weighted x ds count seed
  unfolding select_weighted ranked
  select_weighted-perm count seed p named =
      ap (λ (l : List Drawn). map (λ d. d.id) (take count l)) (ranked-perm seed p named)

-- The selection has as many names as asked for, or as there are candidates with some weight if those
-- are fewer.
pub length-select_weighted :
    (x : External) (count : ℕ) (seed : String) (cs : List EligibleValidator)
    → length (select_weighted x cs count seed)
      ≡ min count (length (filter (λ c. ltb 0 c.weight) cs))
unfolding select_weighted
length-select_weighted x count seed cs =
    let heavy = filter (λ (c : EligibleValidator). ltb 0 c.weight) cs in
    let entries = sort (drawn_le x) (map (draw x seed) heavy) in
    length-map (λ (d : Drawn). d.id) (take count entries)
    ∙ length-take count entries
    ∙ ap (min count)
        (length-sort (drawn_le x) (map (draw x seed) heavy) ∙ length-map (draw x seed) heavy)
