-- ===== src/Coordinator/Draw.antt =====
-- selectWeighted of staking-tiers.ts: the draw of a committee, or of an appeal panel, by sorted keys.
use a2a_verification_network.Prelude.{
  sort, ℕ, ◌==◌, Bool, ◌&&◌, ◌||◌, List, String, ◌<>◌, filter, map, take, ltb,
}
use a2a_verification_network.External.{External}
use a2a_verification_network.Validators.Service.{EligibleValidator}

pub record Drawn : Type 0 where
  pub id : String
  pub key : ℕ

module _ (x : External) where
  -- The key of a candidate's draw. The 48 bits of the hash stand for `unitInterval`.
  abbrev pub draw : String → EligibleValidator → Drawn
  draw seed c = record { id = c.id; key = x.race_key (x.sha256_48 (seed <> ":" <> c.id)) c.weight }

  -- `a.key - b.key || a.id.localeCompare(b.id)` is not positive.
  abbrev pub drawn_le : Drawn → Drawn → Bool
  drawn_le a b = ltb a.key b.key || a.key == b.key && x.locale_le a.id b.id

  unfoldable pub select_weighted : List EligibleValidator → ℕ → String → List String
  unfolding sort
  select_weighted candidates count seed =
      map (λ d. d.id)
        (take count (sort drawn_le (map (draw seed) (filter (λ c. ltb 0 c.weight) candidates))))
