-- ===== src/System/Refinement.antt =====
-- The commitments of the database implement the board.
use a2a_verification_network.Prelude.{
  ℕ, ◌≡◌, refl, sym, subst, ◌∙◌, ap, inl, inr, true, false, Bool-cases, List, [], ◌∷◌, ◌++◌, map,
  Option, none, some, String, any, All, is_some, str_eq_self, arith,
}
use a2a_verification_network.External.{External}
use a2a_verification_network.Store.Entities.{
  Store, VerdictOutcome, VerdictCommitment, same_commitment,
}
use a2a_verification_network.Store.Queries.{Queries, IsSql, reference, eq-reference, replace_row}
use a2a_verification_network.Store.Distinct.{In}
use a2a_verification_network.Store.Replaced.{only_one, All-In}
use a2a_verification_network.CommitReveal.Service.{opened}
use a2a_verification_network.System.Requests.{Call, serve}
use a2a_verification_network.System.Changes.{Change, kept, sealed, voted}
use a2a_verification_network.System.Served.{serve_change}
use a2a_verification_network.System.Votes.{
  IsSound, IsVote, same_id, only_row, str_eq_flip, change-IsSound,
}
use a2a_verification_network.System.Board.{
  Place, Board, Move, stay, add_place, cast, vote_at, put_vote, Reach, here, Reach-keeps,
  Reach-trans,
}
use a2a_verification_network.System.Runs.{run, IsFresh}

abbrev pub place_of : VerdictCommitment → Place
place_of c = record { job_id = c.job_id; validator_id = c.validator_id; vote = c.outcome }

abbrev pub board : Store → Board
board s = map place_of s.commitments

same_commitment_flip : (a b : VerdictCommitment) → same_commitment a b ≡ same_commitment b a
same_commitment_flip a b =
    rw (str_eq_flip a.job_id b.job_id, str_eq_flip a.validator_id b.validator_id) refl

map-append :
    (xs ys : List VerdictCommitment) → map place_of (xs ++ ys) ≡ map place_of xs ++ map place_of ys
map-append [] ys = refl
map-append (x ∷ xs) ys = ap (λ (l : Board). place_of x ∷ l) (map-append xs ys)

no_place :
    (c : VerdictCommitment) (rows : List VerdictCommitment)
    → any (same_commitment c) rows ≡ false
    → vote_at c.job_id c.validator_id (map place_of rows) ≡ none
no_place c [] h = refl
no_place c (r ∷ rows) h = ground (arith, no_place c rows)

own_place :
    (c : VerdictCommitment) (rows : List VerdictCommitment)
    → All (λ r. same_commitment r c ≡ true → r ≡ c) rows
    → In c rows
    → vote_at c.job_id c.validator_id (map place_of rows) ≡ some c.outcome
own_place c [] only i = absurd i
own_place c (r ∷ rows) only (inl e) =
    subst (λ r'. vote_at c.job_id c.validator_id (map place_of (r' ∷ rows)) ≡ some c.outcome)
      (sym e) (ground (arith, str_eq_self c.job_id, str_eq_self c.validator_id))
own_place c (r ∷ rows) only (inr later) = elim (Bool-cases (same_commitment r c)) [
  | inl k ↦
      subst (λ r'. vote_at c.job_id c.validator_id (map place_of (r' ∷ rows)) ≡ some c.outcome)
        (sym (only.0 k)) (ground (arith, str_eq_self c.job_id, str_eq_self c.validator_id))
  | inr k ↦ ground (arith, own_place c rows only.1 later, same_commitment_flip r c)
]

own_key : (c r : VerdictCommitment) → r ≡ c → same_commitment c r ≡ true
own_key c r e =
    subst (λ a. same_commitment c a ≡ true) (sym e)
      (rw (str_eq_self c.job_id, str_eq_self c.validator_id) refl)

other_key :
    (c r : VerdictCommitment)
    → same_id r c ≡ false
    → (same_commitment r c ≡ true → r ≡ c)
    → same_commitment c r ≡ false
other_key c r k only = elim (Bool-cases (same_commitment c r)) [
  | inl h ↦
      let e = only (same_commitment_flip r c ∙ h) in
      absurd (cc (sym k ∙ ap (λ (a : VerdictCommitment). same_id a c) e ∙ str_eq_self c.id))
  | inr h ↦ h
]

cast_place :
    (c e : VerdictCommitment) (o : VerdictOutcome) (rows : List VerdictCommitment)
    → place_of e ≡ record (place_of c) { vote = some o }
    → All (λ r. same_id r c ≡ true → r ≡ c) rows
    → All (λ r. same_commitment r c ≡ true → r ≡ c) rows
    → map place_of (replace_row (λ r. same_id r c) e rows)
      ≡ put_vote c.job_id c.validator_id o (map place_of rows)
cast_place c e o [] at ids keys = refl
cast_place c e o (r ∷ rows) at ids keys =
    let rest = cast_place c e o rows at ids.1 keys.1 in
    elim (Bool-cases (same_id r c)) [
      | inl k ↦ ground (
        arith,
        rest,
        at,
        own_key c r (ids.0 k),
        ap (λ (a : VerdictCommitment). a.job_id) (ids.0 k),
        ap (λ (a : VerdictCommitment). a.validator_id) (ids.0 k),
      )
      | inr k ↦ ground (arith, rest, other_key c r k keys.0)
    ]

sealed_vote :
    (x : External) (c : VerdictCommitment)
    → IsVote x c
    → is_some c.revealed_at ≡ false
    → c.outcome ≡ none
sealed_vote x c (inl h) u = h.0
sealed_vote x c (inr h) u = absurd (cc (sym u ∙ ap (λ (t : Option ℕ). is_some t) h.stored_at))

change-Move : (x : External) {s t : Store} → Change x s t → IsSound x s → Move (board s) (board t)
change-Move x {s} (kept k) h = stay (ap (map place_of) k.commitments)
change-Move x {s} (sealed c i free e) h =
    add_place c.job_id c.validator_id (no_place c s.commitments free) (
      ap board e
      ∙ map-append s.commitments (c ∷ [])
      ∙ ap
          (λ (o : Option VerdictOutcome).
            board s ++ record { job_id = c.job_id; validator_id = c.validator_id; vote = o } ∷ [])
          i.outcome)
change-Move x {s} (voted dto now c m k) h =
    let keys = only_one same_commitment c s.commitments same_commitment_flip h.one_each m.present in
    let unvoted =
      sealed_vote x c (All-In (IsVote x) c s.commitments h.votes m.present) m.unopened in
    cast c.job_id c.validator_id dto.outcome
      (own_place c s.commitments keys m.present ∙ ap some unvoted)
      (ap (map place_of) k.commitments
        ∙ cast_place c (opened reference x dto now c) dto.outcome s.commitments refl
            (only_row x s c h m.present) keys)

run-Reach_at_reference :
    (x : External) (fresh : IsFresh x) (calls : List Call) (s : Store)
    → IsSound x s
    → Reach (board s) (board (run reference x calls s))
unfolding run
run-Reach_at_reference x fresh [] s h = here
run-Reach_at_reference x fresh (c ∷ calls) s h =
    Reach-trans (change-Move x (serve_change x c s) h) (
      run-Reach_at_reference x fresh calls (serve reference x c s)
        (change-IsSound x fresh (serve_change x c s) h))

module _ (q : Queries) (sql : IsSql q) (x : External) where
  -- The node implements the board: whatever requests it serves, the commitments change as the board of
  -- their places does by moves, each of which leaves it, adds a place that is new and holds no vote, or
  -- puts the first vote at a place.
  pub run-Reach :
      (fresh : IsFresh x) (calls : List Call) (s : Store)
      → IsSound x s
      → Reach (board s) (board (run q x calls s))
  run-Reach = rw (eq-reference q sql) (run-Reach_at_reference x)

  -- A validator's vote in a round is final: once the board shows it, it shows the same vote after any
  -- requests.
  pub run-vote_at :
      (fresh : IsFresh x) (calls : List Call) (s : Store) (job validator : String)
      (o : VerdictOutcome)
      → IsSound x s
      → vote_at job validator (board s) ≡ some (some o)
      → vote_at job validator (board (run q x calls s)) ≡ some (some o)
  run-vote_at fresh calls s job validator o h =
      Reach-keeps job validator o (run-Reach fresh calls s h)
