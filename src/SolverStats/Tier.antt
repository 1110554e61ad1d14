-- ===== src/SolverStats/Tier.antt =====
-- computeTier and tierCapWei of orchestrator/src/solver_stats.ts. A threshold is a quotient, as a
-- success rate is. A percentage is a whole number, as `Math.round` makes it.
use ma_at.Prelude.{
  ℕ, ◌+◌, ◌-◌, ◌*◌, ◌/◌, Bool, ◌&&◌, not, Option, none, some, ◌==◌, leb, if◌then◌else◌,
}
use Prim.Native.Nat.{min, max}
use ma_at.SolverStats.Record.{Rate, SolverRecord}

pub record TierConfig : Type 0 where
  pub promote_min_resolved : ℕ
  pub promote_min_success : Rate
  pub demote_min_resolved : ℕ
  pub demote_max_success : Rate

-- With no variable set in the environment.
unfoldable pub default_tier_config : TierConfig
default_tier_config = record {
  promote_min_resolved = 10;
  promote_min_success = record { num = 95; den = 100 };
  demote_min_resolved = 3;
  demote_max_success = record { num = 80; den = 100 };
}

-- `a <= b`
abbrev pub rate_leb : Rate → Rate → Bool
rate_leb a b = leb (a.num * b.den) (b.num * a.den)

abbrev pub promotes : SolverRecord → Rate → TierConfig → Bool → Bool
promotes r rate config complete =
    complete
    && leb config.promote_min_resolved r.resolved
    && rate_leb config.promote_min_success rate

abbrev pub demotes : SolverRecord → Rate → TierConfig → Bool
demotes r rate config =
    leb config.demote_min_resolved r.resolved && not (rate_leb config.demote_max_success rate)

abbrev pub tier_step : ℕ → SolverRecord → TierConfig → Bool → Option Rate → ℕ
tier_step onboarding r config complete none = onboarding
tier_step onboarding r config complete (some rate) =
    if r.resolved == 0
    then onboarding
    else min 3 (
        max 1 (
          if promotes r rate config complete
          then onboarding - 1
          else if demotes r rate config
          then onboarding + 1
          else onboarding))

unfoldable pub compute_tier : ℕ → SolverRecord → TierConfig → Bool → ℕ
compute_tier onboarding_tier r config complete =
    tier_step onboarding_tier r config complete r.success_rate

pub record TierCapPct : Type 0 where
  pub t1 : ℕ
  pub t2 : ℕ
  pub t3 : ℕ

unfoldable pub default_tier_cap_pct : TierCapPct
default_tier_cap_pct = record { t1 = 100; t2 = 30; t3 = 5 }

-- `capPct[tier]`, for a tier between 1 and 3.
abbrev pub pct_of : TierCapPct → ℕ → ℕ
pct_of pct tier = if tier == 1 then pct.t1 else if tier == 2 then pct.t2 else pct.t3

unfoldable pub tier_cap_wei : ℕ → ℕ → TierCapPct → ℕ
tier_cap_wei tier max_transfer_wei pct = max_transfer_wei * pct_of pct tier / 100
