-- ===== src/System/Runs.antt =====
-- Any sequence of requests, with what each meets, from any well-formed database.
use a2a_verification_network.Prelude.{ℕ, ◌≡◌, List, [], ◌∷◌}
use a2a_verification_network.External.{External}
use a2a_verification_network.Store.Entities.{Store}
use a2a_verification_network.Store.Queries.{Queries, IsSql, reference, eq-reference}
use a2a_verification_network.Store.Distinct.{IsDistinct, Extends, Extends-refl, Extends-trans}
use a2a_verification_network.Verdicts.{same_session}
use a2a_verification_network.System.Requests.{Call, serve}
use a2a_verification_network.System.Changes.{Change, kept, sealed, voted}
use a2a_verification_network.System.Served.{serve_change}
use a2a_verification_network.System.Votes.{IsSound, change-IsSound}
use a2a_verification_network.System.Evolution.{Evolves, Evolves-refl, Evolves-trans, change-Evolves}

-- The database after the calls.
unfoldable pub run : Queries → External → List Call → Store → Store
unfolding serve
run q x [] s = s
run q x (c ∷ calls) s = run q x calls (serve q x c s)

-- The database generates no id twice.
abbrev pub IsFresh : External → Type 0
IsFresh x = (m n : ℕ) → x.generate m ≡ x.generate n → m ≡ n

run-IsSound_at_reference :
    (x : External) (fresh : IsFresh x) (calls : List Call) (s : Store)
    → IsSound x s
    → IsSound x (run reference x calls s)
unfolding run
run-IsSound_at_reference x fresh [] s h = h
run-IsSound_at_reference x fresh (c ∷ calls) s h =
    run-IsSound_at_reference x fresh calls (serve reference x c s)
      (change-IsSound x fresh (serve_change x c s) h)

run-Evolves_at_reference :
    (x : External) (fresh : IsFresh x) (calls : List Call) (s : Store)
    → IsSound x s
    → Evolves x s.commitments (run reference x calls s).commitments
unfolding run
run-Evolves_at_reference x fresh [] s h = Evolves-refl x s.commitments
run-Evolves_at_reference x fresh (c ∷ calls) s h =
    let t = serve reference x c s in
    Evolves-trans x s.commitments t.commitments (run reference x calls t).commitments
      (change-Evolves x (serve_change x c s) h)
      (run-Evolves_at_reference x fresh calls t (change-IsSound x fresh (serve_change x c s) h))

-- The verdicts of a database are those of an earlier one and later ones, one for a session.
abbrev pub KeepsVerdicts : Store → Store → Type 0
KeepsVerdicts s t =
    Extends s.verdicts t.verdicts
    × (IsDistinct same_session s.verdicts → IsDistinct same_session t.verdicts)

change-KeepsVerdicts : {x : External} {s t : Store} → Change x s t → KeepsVerdicts s t
change-KeepsVerdicts (kept k) = (k.extends, k.distinct)
change-KeepsVerdicts {s} (sealed c i free e) = rw e (Extends-refl s.verdicts, λ h. h)
change-KeepsVerdicts (voted dto now c m k) = (k.extends, k.distinct)

run-KeepsVerdicts_at_reference :
    (x : External) (calls : List Call) (s : Store) → KeepsVerdicts s (run reference x calls s)
unfolding run
run-KeepsVerdicts_at_reference x [] s = (Extends-refl s.verdicts, λ h. h)
run-KeepsVerdicts_at_reference x (c ∷ calls) s =
    let t = serve reference x c s in
    let (first, first') = change-KeepsVerdicts (serve_change x c s) in
    let (rest, rest') = run-KeepsVerdicts_at_reference x calls t in
    (
      Extends-trans s.verdicts t.verdicts (run reference x calls t).verdicts first rest,
      λ h. rest' (first' h),
    )

module _ (q : Queries) (sql : IsSql q) (x : External) where
  -- Whatever requests the node serves, the votes stay well-formed: the ids of the commitments are
  -- generated ones and differ, no validator has two commitments in a round, and every commitment is
  -- sealed, without outcome and salt, or opened by a vote whose hash is the committed one.
  pub run-IsSound :
      (fresh : IsFresh x) (calls : List Call) (s : Store)
      → IsSound x s
      → IsSound x (run q x calls s)
  run-IsSound = rw (eq-reference q sql) (run-IsSound_at_reference x)

  -- Whatever requests the node serves, every commitment stays in the table, an opened one without any
  -- change, a sealed one as it was or opened by a vote whose hash is the committed one.
  pub run-Evolves :
      (fresh : IsFresh x) (calls : List Call) (s : Store)
      → IsSound x s
      → Evolves x s.commitments (run q x calls s).commitments
  run-Evolves = rw (eq-reference q sql) (run-Evolves_at_reference x)

  -- Whatever requests the node serves, no verdict is changed or taken back, and a session that has one
  -- gets no second.
  pub run-KeepsVerdicts : (calls : List Call) (s : Store) → KeepsVerdicts s (run q x calls s)
  run-KeepsVerdicts = rw (eq-reference q sql) (run-KeepsVerdicts_at_reference x)
