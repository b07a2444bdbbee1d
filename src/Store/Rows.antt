-- ===== src/Store/Rows.antt =====
-- Laws of the calls on rows: what a conditional update leaves, finds and counts.
use a2a_verification_network.Prelude.{
  ◌≡◌, ◌<◌, refl, Bool, true, false, List, [], ◌∷◌, some, find?, any, arith, filter, length,
}
use a2a_verification_network.Store.Queries.{replace_row, update_rows}

module _ {T : Type 0} where
  pub find?-holds : (p : T → Bool) (rows : List T) (e : T) → find? p rows ≡ some e → p e ≡ true
  find?-holds p [] e h = cc
  find?-holds p (r ∷ rows) e h = ground (arith, find?-holds p rows e)

  pub find?-replace_row :
      (p : T → Bool) (rows : List T) (e' e : T)
      → find? p rows ≡ some e
      → p e' ≡ true
      → find? p (replace_row p e' rows) ≡ some e'
  find?-replace_row p [] e' e h k = cc
  find?-replace_row p (r ∷ rows) e' e h k = ground (arith, find?-replace_row p rows e' e)

  -- Where the rows that another test picks are replaced, the row that was found among them included.
  pub find?-replace_other :
      (p same : T → Bool) (rows : List T) (e' e : T)
      → find? p rows ≡ some e
      → p e' ≡ true
      → same e ≡ true
      → find? p (replace_row same e' rows) ≡ some e'
  find?-replace_other p same [] e' e h k m = cc
  find?-replace_other p same (r ∷ rows) e' e h k m =
      ground (arith, find?-replace_other p same rows e' e)

  -- The row that is found by `p` is patched if it meets the condition, which implies `p`.
  pub find?-update_rows :
      (p c : T → Bool) (f : T → T) (rows : List T) (e : T)
      → ((r : T) → p (f r) ≡ p r)
      → find? p rows ≡ some e
      → c e ≡ true
      → find? p (update_rows c f rows).0 ≡ some (f e)
  find?-update_rows p c f [] e keep h k = cc
  find?-update_rows p c f (r ∷ rows) e keep h k =
      ground (arith, keep r, find?-update_rows p c f rows e keep)

  pub any-update_rows :
      (c : T → Bool) (f : T → T) (rows : List T)
      → ((r : T) → c (f r) ≡ false)
      → any c (update_rows c f rows).0 ≡ false
  any-update_rows c f [] off = refl
  any-update_rows c f (r ∷ rows) off = ground (arith, off r, any-update_rows c f rows off)

  -- An update that no row meets changes nothing.
  pub update_rows_unmet :
      (c : T → Bool) (f : T → T) (rows : List T)
      → any c rows ≡ false
      → update_rows c f rows ≡ (rows, 0)
  update_rows_unmet c f [] h = refl
  update_rows_unmet c f (r ∷ rows) h = ground (arith, update_rows_unmet c f rows)

  pub affected_pos :
      (p c : T → Bool) (f : T → T) (rows : List T) (e : T)
      → find? p rows ≡ some e
      → c e ≡ true
      → 0 < (update_rows c f rows).1
  affected_pos p c f [] e h k = cc
  affected_pos p c f (r ∷ rows) e h k = ground (arith, affected_pos p c f rows e)

  -- The count of an update is the number of rows that met its condition.
  pub affected-filter :
      (c : T → Bool) (f : T → T) (rows : List T) → (update_rows c f rows).1 ≡ length (filter c rows)
  affected-filter c f [] = refl
  affected-filter c f (r ∷ rows) = ground (arith, affected-filter c f rows)

  -- Replacing a row by one that fails a test keeps the test off.
  pub any-replace_row :
      (c p : T → Bool) (e : T) (rows : List T)
      → any c rows ≡ false
      → c e ≡ false
      → any c (replace_row p e rows) ≡ false
  any-replace_row c p e [] h k = refl
  any-replace_row c p e (r ∷ rows) h k = ground (arith, any-replace_row c p e rows)
