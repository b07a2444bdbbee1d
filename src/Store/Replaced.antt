-- ===== src/Store/Replaced.antt =====
-- Replacing the one row of an id: what holds of every row, and of every two rows.
use a2a_verification_network.Prelude.{
  ◌≡◌, refl, sym, subst, ◌∙◌, ap, Bool, true, false, Bool-cases, inl, inr, List, [], ◌∷◌, All,
}
use a2a_verification_network.Store.Queries.{replace_row}
use a2a_verification_network.Store.Distinct.{IsDistinct, In}

module _ {T : Type 0} where
  pub All-mono :
      {P Q : T → Type 0} (rows : List T) → ((r : T) → P r → Q r) → All P rows → All Q rows
  All-mono [] f h = tt
  All-mono (r ∷ rows) f h = (f r h.0, All-mono rows f h.1)

  pub All-In : (P : T → Type 0) (e : T) (rows : List T) → All P rows → In e rows → P e
  All-In P e [] h i = absurd i
  All-In P e (r ∷ rows) h (inl same) = subst P same h.0
  All-In P e (r ∷ rows) h (inr later) = All-In P e rows h.1 later

  -- The test that an id is the same picks one row.
  pub only_one :
      (same : T → T → Bool) (c : T) (rows : List T)
      → ((a b : T) → same a b ≡ same b a)
      → IsDistinct same rows
      → In c rows
      → All (λ r. same r c ≡ true → r ≡ c) rows
  only_one same c [] flip d i = tt
  only_one same c (r ∷ rows) flip d (inl e) =
      (λ h. e, All-mono rows (λ a k h. absurd (cc (k, h, e))) d.0)
  only_one same c (r ∷ rows) flip d (inr later) = (
    λ h. absurd (cc (h, flip r c, All-In (λ a. same a r ≡ false) c rows d.0 later)),
    only_one same c rows flip d.1 later,
  )

  -- Where the replaced rows are all `c`, and the new row has what `c` has.
  module _ (same : T → Bool) (c e : T) where
    met :
        (r : T) (rows : List T)
        → same r ≡ true
        → replace_row same e (r ∷ rows) ≡ e ∷ replace_row same e rows
    met r rows h = rw (h, replace_row) refl

    unmet :
        (r : T) (rows : List T)
        → same r ≡ false
        → replace_row same e (r ∷ rows) ≡ r ∷ replace_row same e rows
    unmet r rows h = rw (h, replace_row) refl

    pub All-replace_row :
        (P : T → Type 0) (rows : List T)
        → All (λ r. same r ≡ true → r ≡ c) rows
        → (P c → P e)
        → All P rows
        → All P (replace_row same e rows)
    All-replace_row P [] only f h = tt
    All-replace_row P (r ∷ rows) only f h =
        let rest = All-replace_row P rows only.1 f h.1 in
        elim (Bool-cases (same r)) [
          | inl k ↦ subst (All P) (sym (met r rows k)) (f (subst P (only.0 k) h.0), rest)
          | inr k ↦ subst (All P) (sym (unmet r rows k)) (h.0, rest)
        ]

    pub IsDistinct-replace_row :
        (clash : T → T → Bool) (rows : List T)
        → ((a : T) → clash a e ≡ clash a c)
        → ((a : T) → clash e a ≡ clash c a)
        → All (λ r. same r ≡ true → r ≡ c) rows
        → IsDistinct clash rows
        → IsDistinct clash (replace_row same e rows)
    IsDistinct-replace_row clash [] left right only d = tt
    IsDistinct-replace_row clash (r ∷ rows) left right only d =
        let later = All-replace_row (λ a. clash a r ≡ false) rows only.1 (λ h. right r ∙ h) d.0 in
        let rest = IsDistinct-replace_row clash rows left right only.1 d.1 in
        elim (Bool-cases (same r)) [
          | inl k ↦ subst (IsDistinct clash) (sym (met r rows k)) (
            All-mono (replace_row same e rows) (λ a h. left a ∙ ap (clash a) (sym (only.0 k)) ∙ h)
                later,
            rest,
          )
          | inr k ↦ subst (IsDistinct clash) (sym (unmet r rows k)) (later, rest)
        ]
