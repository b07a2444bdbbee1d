-- ===== src/Store/Distinct.antt =====
-- Rows that a unique constraint tells apart, and the effect of an insert on them.
use a2a_verification_network.Prelude.{
  ◌≡◌, refl, subst, Bool-cases, ◌⊎◌, inl, inr, ◌∙◌, ap, sym, Bool, true, false, some, find?, filter,
  List, [], ◌∷◌, ◌++◌, any, All, All-append, arith,
}

module _ {T : Type 0} where
  -- No row clashes with an earlier one.
  abbrev pub IsDistinct : (T → T → Bool) → List T → Type 0
  IsDistinct clash [] = Unit
  IsDistinct clash (r ∷ rows) = All (λ e. clash e r ≡ false) rows × IsDistinct clash rows

  -- A row of the list.
  abbrev pub In : T → List T → Type 0
  In e [] = ⊥
  In e (r ∷ rows) = (r ≡ e) ⊎ In e rows

  -- The list goes on where the other one ends.
  abbrev pub Extends : List T → List T → Type 0
  Extends xs ys = (rest : List T) × (ys ≡ xs ++ rest)

  append-nil : (xs : List T) → xs ++ [] ≡ xs
  append-nil [] = refl
  append-nil (x ∷ xs) = ap (λ ys. x ∷ ys) (append-nil xs)

  append_assoc : (xs ys zs : List T) → (xs ++ ys) ++ zs ≡ xs ++ (ys ++ zs)
  append_assoc [] ys zs = refl
  append_assoc (x ∷ xs) ys zs = ap (λ l. x ∷ l) (append_assoc xs ys zs)

  pub Extends-refl : (xs : List T) → Extends xs xs
  Extends-refl xs = ([], sym (append-nil xs))

  pub Extends-trans : (xs ys zs : List T) → Extends xs ys → Extends ys zs → Extends xs zs
  Extends-trans xs ys zs (r, e) (r', e') =
      (r ++ r', e' ∙ ap (λ l. l ++ r') e ∙ append_assoc xs r r')

  pub IsDistinct-insert :
      (clash : T → T → Bool) (e : T) (rows : List T)
      → any (clash e) rows ≡ false
      → IsDistinct clash rows
      → IsDistinct clash (rows ++ e ∷ [])
  IsDistinct-insert clash e [] h d = (tt, tt)
  IsDistinct-insert clash e (r ∷ rows) h d = (
    All-append (λ a. clash a r ≡ false) rows (e ∷ []) d.0 (ground arith, tt),
    IsDistinct-insert clash e rows (ground arith) d.1,
  )

  filter_met :
      (p : T → Bool) (r : T) (rows : List T) → p r ≡ true → filter p (r ∷ rows) ≡ r ∷ filter p rows
  filter_met p r rows h = rw (h, filter) refl

  filter_unmet :
      (p : T → Bool) (r : T) (rows : List T) → p r ≡ false → filter p (r ∷ rows) ≡ filter p rows
  filter_unmet p r rows h = rw (h, filter) refl

  pub In-tail : (p : T → Bool) (e : T) (rows : List T) → In e (filter p rows) → In e rows
  In-tail p e [] h = h
  In-tail p e (r ∷ rows) h =
      elim (p r)
          as (λ b.
            In e (elim b [ true ↦ r ∷ filter p rows | false ↦ filter p rows ]) → In e (r ∷ rows)) [
              | true ↦
                  λ k. elim k [ inl same ↦ inl same | inr later ↦ inr (In-tail p e rows later) ]
              | false ↦ λ k. inr (In-tail p e rows k)
            ]
        h

  pub In-filter : (p : T → Bool) (e : T) (rows : List T) → In e (filter p rows) → p e ≡ true
  In-filter p e [] h = absurd h
  In-filter p e (r ∷ rows) h = elim (Bool-cases (p r)) [
    | inl yes' ↦ elim (subst (In e) (filter_met p r rows yes') h) [
      | inl same ↦ ap p (sym same) ∙ yes'
      | inr later ↦ In-filter p e rows later
    ]
    | inr no' ↦ In-filter p e rows (subst (In e) (filter_unmet p r rows no') h)
  ]

  pub find?-In : (p : T → Bool) (e : T) (rows : List T) → find? p rows ≡ some e → In e rows
  find?-In p e [] h = cc
  find?-In p e (r ∷ rows) h = ground (arith, find?-In p e rows)
