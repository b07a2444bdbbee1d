-- ===== src/System/Board.antt =====
-- The abstract view of the commitments: a board with a place for each commitment, which holds the
-- outcome once it is opened. It forgets hashes, salts, ids and times.
use a2a_verification_network.Prelude.{
  ◌≡◌, refl, sym, ◌∙◌, inl, inr, Bool, true, false, ◌&&◌, Bool-cases, List, [], ◌∷◌, ◌++◌, Option,
  none, some, String, str_eq, str_eq_iff, arith, if◌then◌else◌,
}
use a2a_verification_network.Store.Entities.{VerdictOutcome}

pub record Place : Type 0 where
  pub job_id : String
  pub validator_id : String
  pub vote : Option VerdictOutcome

abbrev pub Board : Type 0
Board = List Place

abbrev is_place : String → String → Place → Bool
is_place job validator p = str_eq job p.job_id && str_eq validator p.validator_id

-- The vote at a validator's place in a round, if there is a place.
abbrev pub vote_at : String → String → Board → Option (Option VerdictOutcome)
vote_at job validator [] = none
vote_at job validator (p ∷ board) =
    let rest = vote_at job validator board in if is_place job validator p then some p.vote else rest

abbrev pub put_vote : String → String → VerdictOutcome → Board → Board
put_vote job validator o [] = []
put_vote job validator o (p ∷ board) =
    let rest = put_vote job validator o board in
    if is_place job validator p then record p { vote = some o } ∷ rest else p ∷ rest

-- What may happen to a board: nothing, a new place without a vote, or the first vote at a place.
pub data Move (b b' : Board) : Type 0 where
  stay : b' ≡ b → Move b b'
  add_place :
      (job validator : String)
      → vote_at job validator b ≡ none
      → b' ≡ b ++ record { job_id = job; validator_id = validator; vote = none } ∷ []
      → Move b b'
  cast :
      (job validator : String) (o : VerdictOutcome)
      → vote_at job validator b ≡ some none
      → b' ≡ put_vote job validator o b
      → Move b b'

-- The boards that moves lead to.
pub data Reach (b : Board) : Board → Type 0 where
  here : Reach b b
  next : {b' b'' : Board} → Reach b b' → Move b' b'' → Reach b b''

vote_at-append :
    (job validator : String) (b new : Board) (w : Option VerdictOutcome)
    → vote_at job validator b ≡ some w
    → vote_at job validator (b ++ new) ≡ some w
vote_at-append job validator [] new w h = absurd (cc h)
vote_at-append job validator (p ∷ b) new w h = ground (arith, vote_at-append job validator b new w)

both : {m n : Bool} → m && n ≡ true → (m ≡ true) × (n ≡ true)
both e = ground arith

one_place :
    (job validator job' validator' : String) (p : Place)
    → is_place job validator p ≡ true
    → is_place job' validator' p ≡ true
    → (job ≡ job') × (validator ≡ validator')
one_place job validator job' validator' p h k =
    let (a, b) = both h in
    let (a', b') = both k in
    (
      (str_eq_iff job p.job_id).0 a ∙ sym ((str_eq_iff job' p.job_id).0 a'),
      (str_eq_iff validator p.validator_id).0 b ∙ sym ((str_eq_iff validator' p.validator_id).0 b'),
    )

other_place :
    (job validator job' validator' : String) (p : Place)
    → str_eq job job' && str_eq validator validator' ≡ false
    → is_place job validator p ≡ true
    → is_place job' validator' p ≡ false
other_place job validator job' validator' p differ h =
    elim (Bool-cases (is_place job' validator' p)) [
      | inl k ↦
          let (e, e') = one_place job validator job' validator' p h k in
          absurd (ground (arith, (str_eq_iff job job').1 e, (str_eq_iff validator validator').1 e'))
      | inr k ↦ k
    ]

vote_at-put_other :
    (job validator job' validator' : String) (o : VerdictOutcome) (b : Board)
    → str_eq job job' && str_eq validator validator' ≡ false
    → vote_at job validator (put_vote job' validator' o b) ≡ vote_at job validator b
vote_at-put_other job validator job' validator' o [] differ = refl
vote_at-put_other job validator job' validator' o (p ∷ b) differ = ground (
  arith,
  vote_at-put_other job validator job' validator' o b differ,
  other_place job validator job' validator' p differ,
)

-- A first vote leaves the votes at the other places alone.
vote_at-put_vote :
    (job validator job' validator' : String) (o o' : VerdictOutcome) (b : Board)
    → vote_at job' validator' b ≡ some none
    → vote_at job validator b ≡ some (some o)
    → vote_at job validator (put_vote job' validator' o' b) ≡ some (some o)
vote_at-put_vote job validator job' validator' o o' b free h =
    elim (Bool-cases (str_eq job job' && str_eq validator validator')) [
      | inl k ↦ absurd (no_vote (both k))
      | inr k ↦ vote_at-put_other job validator job' validator' o' b k ∙ h
    ]
  where
    no_vote : (str_eq job job' ≡ true) × (str_eq validator validator' ≡ true) → ⊥
    no_vote (a, a') =
        cc (free, h, (str_eq_iff job job').0 a, (str_eq_iff validator validator').0 a')

Move-keeps :
    (job validator : String) (o : VerdictOutcome) {b b' : Board}
    → Move b b'
    → vote_at job validator b ≡ some (some o)
    → vote_at job validator b' ≡ some (some o)
Move-keeps job validator o (stay e) h = rw e h
Move-keeps job validator o {b} (add_place job' validator' free e) h =
    rw e (vote_at-append job validator b _ (some o) h)
Move-keeps job validator o {b} (cast job' validator' o' free e) h =
    rw e (vote_at-put_vote job validator job' validator' o o' b free h)

-- A vote on a board is final.
pub Reach-keeps :
    (job validator : String) (o : VerdictOutcome) {b b' : Board}
    → Reach b b'
    → vote_at job validator b ≡ some (some o)
    → vote_at job validator b' ≡ some (some o)
Reach-keeps job validator o here h = h
Reach-keeps job validator o (next r m) h =
    Move-keeps job validator o m (Reach-keeps job validator o r h)

pub Reach-trans : {a b c : Board} → Move a b → Reach b c → Reach a c
Reach-trans m here = next here m
Reach-trans m (next r m') = next (Reach-trans m r) m'
