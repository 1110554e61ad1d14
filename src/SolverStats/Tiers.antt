-- ===== src/SolverStats/Tiers.antt =====
-- Bounds on what computeTier and tierCapWei of orchestrator/src/solver_stats.ts return, and how it depends
-- on the record.
use ma_at.Prelude.{
  ℕ, suc, ◌+◌, ◌-◌, ◌*◌, ◌≤◌, ◌≡◌, Bool, true, false, not, ◌&&◌, Option, none, some, ◌==◌, leb,
  if◌then◌else◌, ap, sym, ◌∙◌, arith,
}
use native.Mathlib.Nat.{mul-le-mul_right}
use Prim.Native.Nat.{min, max}
use ma_at.SolverStats.Record.{Rate, Accumulator, SolverRecord, to_record}
use ma_at.SolverStats.Tier.{
  TierConfig, compute_tier, tier_step, tier_cap_wei, rate_leb, promotes, demotes,
  default_tier_cap_pct,
}

-- A tier the code knows.
abbrev pub IsTier : ℕ → Type 0
IsTier t = (1 ≤ t) × (t ≤ 3)

-- What one step of the tier comes to.
clamp-IsTier :
    (t x : ℕ)
    → IsTier t
    → x ≤ suc t
    → t ≤ suc x
    → IsTier (min 3 (max 1 x)) × (min 3 (max 1 x) ≤ suc t) × (t ≤ suc (min 3 (max 1 x)))
clamp-IsTier t x h above below = ground arith

-- A step, by the answers to its three tests: is nothing resolved, is the solver promoted, is it
-- demoted.
abbrev moved : ℕ → Bool → Bool → Bool → ℕ
moved t empty up down =
    if empty then t else min 3 (max 1 (if up then t - 1 else if down then t + 1 else t))

moved-IsTier :
    (t : ℕ) (empty up down : Bool)
    → IsTier t
    → IsTier (moved t empty up down)
      × (moved t empty up down ≤ suc t)
      × (t ≤ suc (moved t empty up down))
moved-IsTier t true up down h = ground arith
moved-IsTier t false true down h = clamp-IsTier t (t - 1) h (omega arith) (omega arith)
moved-IsTier t false false true h = clamp-IsTier t (t + 1) h (omega arith) (omega arith)
moved-IsTier t false false false h = clamp-IsTier t t h (omega arith) (omega arith)

unpromoted-le : (t : ℕ) (empty down : Bool) → IsTier t → t ≤ moved t empty false down
unpromoted-le t true down h = omega arith
unpromoted-le t false true h = ground arith
unpromoted-le t false false h = ground arith

-- More reason for a promotion, and less for a demotion, gives no worse a tier.
moved-le :
    (t : ℕ) (empty empty' up up' down down' : Bool)
    → empty ≡ empty'
    → (up ≡ true → up' ≡ true)
    → (down' ≡ true → down ≡ true)
    → moved t empty' up' down' ≤ moved t empty up down
moved-le t empty empty' up up' down down' he hu hd = ground arith

step-IsTier :
    (t : ℕ) (r : SolverRecord) (config : TierConfig) (complete : Bool) (rate : Option Rate)
    → IsTier t
    → IsTier (tier_step t r config complete rate)
      × (tier_step t r config complete rate ≤ suc t)
      × (t ≤ suc (tier_step t r config complete rate))
step-IsTier t r config complete none h = ground arith
step-IsTier t r config complete (some rate) h =
    moved-IsTier t (r.resolved == 0) (promotes r rate config complete) (demotes r rate config) h

-- The tier that a solver is given from an onboarding tier between 1 and 3 is between 1 and 3 and at
-- most one step away from it.
pub compute_tier-IsTier :
    (t : ℕ) (r : SolverRecord) (config : TierConfig) (complete : Bool)
    → IsTier t
    → IsTier (compute_tier t r config complete)
      × (compute_tier t r config complete ≤ suc t)
      × (t ≤ suc (compute_tier t r config complete))
unfolding compute_tier
compute_tier-IsTier t r config complete h = step-IsTier t r config complete r.success_rate h

incomplete-le :
    (t : ℕ) (r : SolverRecord) (config : TierConfig) (rate : Option Rate)
    → IsTier t
    → t ≤ tier_step t r config false rate
incomplete-le t r config none h = omega arith
incomplete-le t r config (some rate) h = unpromoted-le t (r.resolved == 0) (demotes r rate config) h

-- A solver with an onboarding tier between 1 and 3 is not promoted on an incomplete track record.
pub compute_tier-incomplete :
    (t : ℕ) (r : SolverRecord) (config : TierConfig) → IsTier t → t ≤ compute_tier t r config false
unfolding compute_tier
compute_tier-incomplete t r config h = incomplete-le t r config r.success_rate h

leb_trans : (x y z : ℕ) → leb x y ≡ true → y ≤ z → leb x z ≡ true
leb_trans x y z h le = ground arith

-- A threshold that a rate reaches is reached by a better rate over the same number.
rate_leb_trans :
    (q : Rate) (s s' n n' : ℕ)
    → n ≡ n'
    → s ≤ s'
    → rate_leb q (record { num = s; den = n }) ≡ true
    → rate_leb q (record { num = s'; den = n' }) ≡ true
rate_leb_trans q s s' n n' same le h =
    leb_trans (q.num * n') (s * q.den) (s' * q.den)
      (ap (λ d. leb (q.num * d) (s * q.den)) (sym same) ∙ h) (mul-le-mul_right q.den le)

promotes-le :
    (a b : SolverRecord) (config : TierConfig) (complete : Bool) (s s' n n' : ℕ)
    → a.resolved ≡ b.resolved
    → n ≡ n'
    → s ≤ s'
    → promotes a (record { num = s; den = n }) config complete ≡ true
    → promotes b (record { num = s'; den = n' }) config complete ≡ true
promotes-le a b config complete s s' n n' resolved same le =
    both (complete && leb config.promote_min_resolved a.resolved)
      (complete && leb config.promote_min_resolved b.resolved)
      (rate_leb config.promote_min_success (record { num = s; den = n }))
      (rate_leb config.promote_min_success (record { num = s'; den = n' }))
      (ap (λ m. complete && leb config.promote_min_resolved m) resolved)
      (rate_leb_trans config.promote_min_success s s' n n' same le)
  where
    both : (x y u v : Bool) → x ≡ y → (u ≡ true → v ≡ true) → (x && u) ≡ true → (y && v) ≡ true
    both x y u v e f h = ground arith

demotes-le :
    (a b : SolverRecord) (config : TierConfig) (s s' n n' : ℕ)
    → a.resolved ≡ b.resolved
    → n ≡ n'
    → s ≤ s'
    → demotes b (record { num = s'; den = n' }) config ≡ true
    → demotes a (record { num = s; den = n }) config ≡ true
demotes-le a b config s s' n n' resolved same le =
    both (leb config.demote_min_resolved a.resolved) (leb config.demote_min_resolved b.resolved)
      (rate_leb config.demote_max_success (record { num = s; den = n }))
      (rate_leb config.demote_max_success (record { num = s'; den = n' }))
      (ap (leb config.demote_min_resolved) resolved)
      (rate_leb_trans config.demote_max_success s s' n n' same le)
  where
    both :
        (x y u v : Bool) → x ≡ y → (u ≡ true → v ≡ true) → (y && not v) ≡ true → (x && not u) ≡ true
    both x y u v e f h = ground arith

rated-le :
    (t : ℕ) (a b : SolverRecord) (config : TierConfig) (complete : Bool) (s s' n n' : ℕ)
    (empty empty' : Bool)
    → a.resolved ≡ b.resolved
    → n ≡ n'
    → s ≤ s'
    → empty ≡ empty'
    → tier_step t b config complete (if empty' then none else some (record { num = s'; den = n' }))
      ≤ tier_step t a config complete (if empty then none else some (record { num = s; den = n }))
rated-le t a b config complete s s' n n' true true resolved same le e = omega arith
rated-le t a b config complete s s' n n' false false resolved same le e =
    moved-le t (a.resolved == 0) (b.resolved == 0)
      (promotes a (record { num = s; den = n }) config complete)
      (promotes b (record { num = s'; den = n' }) config complete)
      (demotes a (record { num = s; den = n }) config)
      (demotes b (record { num = s'; den = n' }) config) (ap (λ m. m == 0) resolved)
      (promotes-le a b config complete s s' n n' resolved same le)
      (demotes-le a b config s s' n n' resolved same le)
rated-le t a b config complete s s' n n' true false resolved same le e = ground arith
rated-le t a b config complete s s' n n' false true resolved same le e = ground arith

-- Of two records with as many resolved intents, that with more settled ones never gets a worse tier.
pub compute_tier-le :
    (t : ℕ) (a b : Accumulator) (config : TierConfig) (complete : Bool)
    → a.settled + a.slashed ≡ b.settled + b.slashed
    → a.settled ≤ b.settled
    → compute_tier t (to_record b) config complete ≤ compute_tier t (to_record a) config complete
unfolding compute_tier to_record
compute_tier-le t a b config complete same le =
    rated-le t (to_record a) (to_record b) config complete a.settled b.settled
      (a.settled + a.slashed) (b.settled + b.slashed) ((a.settled + a.slashed) == 0)
      ((b.settled + b.slashed) == 0) same same le (ap (λ m. m == 0) same)

-- With the default percentages, a tier between 1 and 3 is granted at most the whole of the largest
-- transfer, and a worse tier no more than a better one.
pub tier_cap_wei-le :
    (t u m : ℕ)
    → IsTier t
    → IsTier u
    → t ≤ u
    → (tier_cap_wei u m default_tier_cap_pct ≤ tier_cap_wei t m default_tier_cap_pct)
      × (tier_cap_wei t m default_tier_cap_pct ≤ m)
unfolding tier_cap_wei default_tier_cap_pct
tier_cap_wei-le t u m ht hu le = ground arith
