-- ===== src/Disputes/Opening.antt =====
-- Opening an appeal: when it may be opened, and who sits on its panel.
use a2a_verification_network.Prelude.{
  insert_sorted, sort, ℕ, ◌*◌, ◌<◌, ◌≡◌, refl, subst, sym, max, Bool, true, false, not, List, [],
  ◌∷◌, ◌++◌, none, some, String, ◌<>◌, str_eq, str_eq_iff, str_eq_self, find?, filter, map, take,
  includes, length, ltb, arith, All, All-filter, All-take, if◌then◌else◌,
}
use a2a_verification_network.External.{External}
use a2a_verification_network.Store.Entities.{Store, Dispute, DisputeAppeal, appealed}
use a2a_verification_network.Store.Queries.{Queries, IsSql, reference, eq-reference, replace_row}
use a2a_verification_network.Store.Rows.{find?-holds, find?-replace_row}
use a2a_verification_network.Store.Monad.{ok}
use a2a_verification_network.Validators.Service.{
  EligibleValidator, distinct, find_eligible, candidate_of,
}
use a2a_verification_network.Coordinator.Draw.{Drawn, draw, drawn_le, select_weighted}
use a2a_verification_network.Disputes.Quorum.{appeal_panel_size, reversal_quorum}
use a2a_verification_network.Disputes.Service.{is_resolved}
use a2a_verification_network.Disputes.Appeals.{
  OpenAppealDto, AppealView, open_appeal_of, signatures_of, window_closed, hour_ms,
}
use a2a_verification_network.Disputes.Deciding.{appeal_row}
use a2a_verification_network.Disputes.Resolving.{dispute_row}

module _ {ℓ κ} {A : Type ℓ} (P : A → Type κ) where
  All-insert_sorted :
      (le : A → A → Bool) (a : A) (l : List A) → P a → All P l → All P (insert_sorted le a l)
  unfolding insert_sorted
  All-insert_sorted le a [] p h = (p, tt)
  All-insert_sorted le a (b ∷ l) p h =
      elim (le a b) as (λ t. All P (if t then a ∷ b ∷ l else b ∷ insert_sorted le a l)) [
        | true ↦ (p, h)
        | false ↦ (h.0, All-insert_sorted le a l p h.1)
      ]

  All-sort : (le : A → A → Bool) (l : List A) → All P l → All P (sort le l)
  unfolding sort
  All-sort le [] h = tt
  All-sort le (a ∷ l) h = All-insert_sorted le a (sort le l) h.0 (All-sort le l h.1)

module _ {ℓ κ} {A : Type ℓ} {B : Type ℓ} (P : B → Type κ) (f : A → B) where
  All-map : (l : List A) → All (λ a. P (f a)) l → All P (map f l)
  All-map [] h = tt
  All-map (a ∷ l) h = (h.0, All-map l h.1)

module _ {ℓ} {A : Type ℓ} (p : A → Bool) where
  All-kept :
      (a : A) (l : List A) (b : Bool)
      → p a ≡ b
      → All (λ r. p r ≡ true) l
      → All (λ r. p r ≡ true) (elim b [ true ↦ a ∷ l | false ↦ l ])
  All-kept a l true e h = (e, h)
  All-kept a l false e h = h

  -- What a filter keeps passes its test.
  All-filter_self : (l : List A) → All (λ a. p a ≡ true) (filter p l)
  All-filter_self [] = tt
  All-filter_self (a ∷ l) = All-kept a (filter p l) (p a) refl (All-filter_self l)

-- What holds of the names of all candidates holds of the names drawn.
All-select_weighted :
    (x : External) (P : String → Type 0) (cs : List EligibleValidator) (count : ℕ) (seed : String)
    → All (λ (c : EligibleValidator). P c.id) cs
    → All P (select_weighted x cs count seed)
unfolding select_weighted
All-select_weighted x P cs count seed h =
    let heavy = filter (λ (c : EligibleValidator). ltb 0 c.weight) cs in
    let keys = map (draw x seed) heavy in
    let by_name : Drawn → Type 0 = λ d. P d.id in
    All-map P (λ (d : Drawn). d.id) (take count (sort (drawn_le x) keys))
      (All-take by_name count (sort (drawn_le x) keys) (
        All-sort by_name (drawn_le x) keys (
          All-map by_name (draw x seed) heavy
            (All-filter (λ (c : EligibleValidator). P c.id) (λ c. ltb 0 c.weight) cs h))))

-- The validators that signed the verdict of the dispute's session.
abbrev pub signers_of : Dispute → Store → List String
signers_of d s =
    distinct [] (signatures_of (find? (λ v. str_eq v.session_id d.session_id) s.verdicts))

-- Whether a name is none of the signers.
abbrev pub is_outsider : Dispute → Store → String → Bool
is_outsider d s id = not (includes (signers_of d s) id)

abbrev pub committee_of : Dispute → Store → ℕ
committee_of d s = max (length (signers_of d s)) 3

module _ (x : External) (id : String) (dto : OpenAppealDto) (now : ℕ) (s : Store)
    (d : Dispute) where
  -- The names that are drawn for the panel.
  abbrev drawn : List String
  drawn =
      select_weighted x
        (filter (λ c. is_outsider d s c.id)
          (filter (λ (c : EligibleValidator). ltb 0 c.weight)
            (map (candidate_of reference x) (filter (λ v. v.is_active) s.validators))))
        (appeal_panel_size (committee_of d s) x.config.appeal_panel_multiplier) ("appeal:" <> id)

  drawn_outsiders : All (λ m. is_outsider d s m ≡ true) drawn
  drawn_outsiders =
      All-select_weighted x (λ m. is_outsider d s m ≡ true) _ _ _
        (All-filter_self (λ (c : EligibleValidator). is_outsider d s c.id) _)

  opened_facts :
      (r : AppealView) (t : Store)
      → dispute_row id s ≡ some d
      → open_appeal_of reference x id dto now s ≡ ok r t
      → (appeal_row id s ≡ none)
        × (is_resolved d.status ≡ true)
        × (window_closed d.resolved_at (x.config.appeal_window_hours * hour_ms) now ≡ false)
        × (committee_of d s < length drawn)
        × (r.appeal.panel ≡ drawn)
        × (r.appeal.quorum ≡ reversal_quorum (length drawn))
        × (t.appeals ≡ s.appeals ++ r.appeal ∷ [])
        × (t.disputes
            ≡ replace_row (λ r. str_eq r.id d.id) (record d { status = appealed }) s.disputes)
  unfolding open_appeal_of find_eligible
  opened_facts r t found e = ground arith

  -- The dispute's row, once another status is written to it.
  appealed_row :
      (t : Store)
      → dispute_row id s ≡ some d
      → t.disputes ≡ replace_row (λ r. str_eq r.id d.id) (record d { status = appealed }) s.disputes
      → dispute_row id t ≡ some (record d { status = appealed })
  appealed_row t found rows =
      let own : d.id ≡ id =
        (str_eq_iff d.id id).0 (find?-holds (λ r. str_eq r.id id) s.disputes d found) in
      let before : find? (λ r. str_eq r.id d.id) s.disputes ≡ some d =
        subst (λ i. find? (λ r. str_eq r.id i) s.disputes ≡ some d) (sym own) found in
      subst (λ i. find? (λ r. str_eq r.id i) t.disputes ≡ some (record d { status = appealed })) own
        (subst (λ l. find? (λ r. str_eq r.id d.id) l ≡ some (record d { status = appealed }))
          (sym rows)
          (find?-replace_row (λ r. str_eq r.id d.id) s.disputes (record d { status = appealed }) d
            before (str_eq_self d.id)))

-- What an appeal that was opened has to do with its dispute: the dispute was resolved, had no appeal
-- and its window was open; nobody on the panel signed the verdict, and the panel is larger than the
-- committee; the quorum is that of the panel; the appeal is stored, and the dispute is under appeal.
pub record IsOpened (x : External) (id : String) (now : ℕ) (s t : Store) (d : Dispute)
    (a : DisputeAppeal) : Type 0 where
  pub first : appeal_row id s ≡ none
  pub resolved : is_resolved d.status ≡ true
  pub in_time : window_closed d.resolved_at (x.config.appeal_window_hours * hour_ms) now ≡ false
  pub outsiders : All (λ m. is_outsider d s m ≡ true) a.panel
  pub larger : committee_of d s < length a.panel
  pub quorum : a.quorum ≡ reversal_quorum (length a.panel)
  pub stored : t.appeals ≡ s.appeals ++ a ∷ []
  pub under_appeal : dispute_row id t ≡ some (record d { status = appealed })

open_appeal_of-IsOpened_at_reference :
    (x : External) (id : String) (dto : OpenAppealDto) (now : ℕ) (s : Store) (d : Dispute)
    (r : AppealView) (t : Store)
    → dispute_row id s ≡ some d
    → open_appeal_of reference x id dto now s ≡ ok r t
    → IsOpened x id now s t d r.appeal
open_appeal_of-IsOpened_at_reference x id dto now s d r t found e =
    let (first, done, in_time, larger, panel, quorum, stored, rows) =
      opened_facts x id dto now s d r t found e in
    record {
      first = first;
      resolved = done;
      in_time = in_time;
      outsiders =
          subst (λ l. All (λ m. is_outsider d s m ≡ true) l) (sym panel)
            (drawn_outsiders x id dto now s d);
      larger = subst (λ l. committee_of d s < length l) (sym panel) larger;
      quorum = subst (λ l. r.appeal.quorum ≡ reversal_quorum (length l)) (sym panel) quorum;
      stored = stored;
      under_appeal = appealed_row x id dto now s d t found rows;
    }

module _ (q : Queries) (sql : IsSql q) (x : External) (id : String) (dto : OpenAppealDto) (now : ℕ)
    (s : Store) where
  -- An appeal that is opened is the first of its dispute, which was resolved and within its window. No
  -- panel member signed the verdict of the session, the panel has more members than the committee (at
  -- least the baseline of three), the quorum is that of the panel, the appeal is the new last row of its
  -- table, and the dispute is marked as under appeal.
  pub open_appeal_of-IsOpened :
      (d : Dispute) (r : AppealView) (t : Store)
      → dispute_row id s ≡ some d
      → open_appeal_of q x id dto now s ≡ ok r t
      → IsOpened x id now s t d r.appeal
  open_appeal_of-IsOpened =
      rw (eq-reference q sql) (open_appeal_of-IsOpened_at_reference x id dto now s)
