-- ===== src/Store/Queries.antt =====
-- What the services take from a TypeORM repository, on the rows of one table, with the documented
-- meaning of each call as a law. `reference` is a database that keeps the laws; it stands in tests
-- and, since the laws leave no other choice, in proofs.
use a2a_verification_network.Prelude.{
  ℕ, suc, ◌≡◌, refl, Bool, true, false, List, [], ◌∷◌, ◌++◌, Option, none, some, filter, find?, any,
}

pub record Queries : Type 1 where
  -- `find` and `findBy`: the rows that meet the condition.
  pub find_by : {T : Type 0} → (T → Bool) → List T → List T
  -- `findOneBy`.
  pub find_one_by : {T : Type 0} → (T → Bool) → List T → Option T
  -- `save` of an entity that has no row yet. The first argument tells whether two rows agree on the
  -- columns of a unique constraint; `none` is a `QueryFailedError`.
  pub insert : {T : Type 0} → (T → T → Bool) → T → List T → Option (List T)
  -- `save` of an entity that was read: the first argument picks its row, by the id.
  pub save : {T : Type 0} → (T → Bool) → T → List T → List T
  -- `update(where, patch)`, which is one conditional statement: the rows, and how many it affected.
  pub update : {T : Type 0} → (T → Bool) → (T → T) → List T → List T × ℕ

module _ {T : Type 0} where
  abbrev pub insert_row : (T → T → Bool) → T → List T → Option (List T)
  insert_row clash e rows = elim (any (clash e) rows) [
    | true ↦ none
    | false ↦ some (rows ++ e ∷ [])
  ]

  abbrev pub replace_row : (T → Bool) → T → List T → List T
  replace_row same e [] = []
  replace_row same e (r ∷ rows) =
      let rest = replace_row same e rows in elim (same r) [ true ↦ e ∷ rest | false ↦ r ∷ rest ]

  abbrev pub update_rows : (T → Bool) → (T → T) → List T → List T × ℕ
  update_rows p f [] = ([], 0)
  update_rows p f (r ∷ rows) =
      let rest = update_rows p f rows in
      elim (p r) [ true ↦ (f r ∷ rest.0, suc rest.1) | false ↦ (r ∷ rest.0, rest.1) ]

-- The documented meaning of the calls: `find` returns the rows that match, `findOneBy` the first of
-- them, an insert is refused when it breaks a unique constraint and else adds the row, a save
-- overwrites the row with the entity's id, and an update patches the rows that match.
pub record IsSql (q : Queries) : Type 1 where
  pub find_by_lem : {T : Type 0} (p : T → Bool) (rows : List T) → q.find_by p rows ≡ filter p rows
  pub find_one_by_lem :
      {T : Type 0} (p : T → Bool) (rows : List T) → q.find_one_by p rows ≡ find? p rows
  pub insert_lem :
      {T : Type 0} (clash : T → T → Bool) (e : T) (rows : List T)
      → q.insert clash e rows ≡ insert_row clash e rows
  pub save_lem :
      {T : Type 0} (same : T → Bool) (e : T) (rows : List T)
      → q.save same e rows ≡ replace_row same e rows
  pub update_lem :
      {T : Type 0} (p : T → Bool) (f : T → T) (rows : List T)
      → q.update p f rows ≡ update_rows p f rows

abbrev pub reference : Queries
reference = record {
  find_by = filter;
  find_one_by = find?;
  insert = insert_row;
  save = replace_row;
  update = update_rows;
}

pub reference-IsSql : IsSql reference
reference-IsSql = record {
  find_by_lem = λ p rows. refl;
  find_one_by_lem = λ p rows. refl;
  insert_lem = λ clash e rows. refl;
  save_lem = λ same e rows. refl;
  update_lem = λ p f rows. refl;
}

-- The laws determine the calls, so a statement about any such database follows from `reference`.
pub eq-reference : (q : Queries) → IsSql q → q ≡ reference
eq-reference q sql = λ i. record {
  find_by = λ {T} p rows. sql.find_by_lem {T = T} p rows i;
  find_one_by = λ {T} p rows. sql.find_one_by_lem {T = T} p rows i;
  insert = λ {T} clash e rows. sql.insert_lem {T = T} clash e rows i;
  save = λ {T} same e rows. sql.save_lem {T = T} same e rows i;
  update = λ {T} p f rows. sql.update_lem {T = T} p f rows i;
}
