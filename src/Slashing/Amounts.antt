-- ===== src/Slashing/Amounts.antt =====
-- The amount of a slash against the stake.
use a2a_verification_network.Prelude.{ℕ, ◌+◌, ◌*◌, ◌≤◌, ◌<◌, arith}
use a2a_verification_network.Validators.Tiers.{ℤ, pos, negsuc}
use a2a_verification_network.Slashing.Service.{slash_amount, clamp_bps}

clamp_bps-le : (f : ℤ) → clamp_bps f ≤ 10000
clamp_bps-le (pos n) = omega arith
clamp_bps-le (negsuc n) = omega arith

-- A slash is the fraction of the stake in basis points, the fraction held between none and all of it,
-- rounded down to whole wei; so it never takes more than the stake.
pub slash_amount_bounds :
    (stake : ℕ) (fraction : ℤ)
    → (slash_amount stake fraction ≤ stake)
      × (slash_amount stake fraction * 10000 ≤ stake * clamp_bps fraction)
      × (stake * clamp_bps fraction < slash_amount stake fraction * 10000 + 10000)
unfolding slash_amount
slash_amount_bounds stake fraction =
    let cap : stake * clamp_bps fraction ≤ stake * 10000 = grind (arith, clamp_bps-le fraction) in
    (omega arith, omega arith, omega arith)
