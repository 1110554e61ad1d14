-- ===== src/Examples/Scoring.antt =====
-- The scoring's theorems at concrete records.
use ma_at.Prelude.{
  subst, ℕ, suc, ◌≤◌, ◌≡◌, refl, true, some, [], ◌∷◌, arith, Text, text, text_eq, addr_key,
  to_lower, Any, with_0x,
}
use ma_at.IntentStatus.{OnChainIntent, zero_address}
use ma_at.Settlement.World.{ok}
use ma_at.Prelude.Dict
use ma_at.SolverStats.Record.{
  CachedTerminalIntent, TerminalCache, Accumulator, to_record, Reader, read_solver_record,
}
use ma_at.Routing.Onboarding.{
  OnboardingFile, array, is_tier, load_tiers, entries_of, load_onboarding_tiers, Gives,
  compute_tier-Given,
}
use ma_at.SolverStats.Tier.{compute_tier, default_tier_config}
use ma_at.SolverStats.Tiers.{IsTier, compute_tier-le}
use ma_at.SolverStats.Counts.{Copies, IsTrackRecord}
use ma_at.SolverStats.TrackRecord.{read_solver_record-IsTrackRecord}
use ma_at.Examples.Fixture.{intent, on_chain}

abbrev nineteen : Accumulator
nineteen = record { settled = 19; slashed = 1; refunded = 0; expired = 0; excluded = 0 }

abbrev sixteen : Accumulator
sixteen = record { settled = 15; slashed = 5; refunded = 0; expired = 0; excluded = 0 }

-- 19 of 20 is a promotion, 15 of 20 a demotion.
promotion : compute_tier 2 (to_record nineteen) default_tier_config true ≡ 1
unfolding compute_tier to_record default_tier_config
promotion = refl

demotion : compute_tier 2 (to_record sixteen) default_tier_config true ≡ 3
unfolding compute_tier to_record default_tier_config
demotion = refl

-- Of the two entries for one solver, the first has a tier that the code does not know.
abbrev onboarding : OnboardingFile
onboarding = array (
    record { solver = some (text "0xAB"); onboarding_tier = some 7 }
    ∷ record { solver = some (text "0xab"); onboarding_tier = some 2 }
    ∷ [])

second_tier : load_onboarding_tiers onboarding (text "0xAb") ≡ 2
unfolding load_onboarding_tiers load_tiers is_tier addr_key to_lower text Dict.get Dict.set text_eq
second_tier = refl

compute_tier-Given_example :
    IsTier (
      compute_tier
        (load_onboarding_tiers onboarding (text "0xAb"))
        (to_record nineteen)
        default_tier_config
        true)
    × (compute_tier
            (load_onboarding_tiers onboarding (text "0xAb"))
            (to_record nineteen)
            default_tier_config
            true
          ≡ 1
        → (tier : ℕ) × (tier ≤ 2)
          × Any (Gives (addr_key (text "0xAb")) tier) (entries_of onboarding))
compute_tier-Given_example =
    compute_tier-Given onboarding (text "0xAb") (to_record nineteen) default_tier_config true

compute_tier-le_example :
    compute_tier 2 (to_record nineteen) default_tier_config true
    ≤ compute_tier 2 (to_record sixteen) default_tier_config true
compute_tier-le_example =
    compute_tier-le 2 sixteen nineteen default_tier_config true refl (omega arith)

-- Every intent settled by the first solver.
abbrev settled_chain : Text → OnChainIntent
settled_chain id = record on_chain { status = 1 }

abbrev reader : Reader ℕ
reader id w = (ok (settled_chain id), suc w)

abbrev cached : CachedTerminalIntent
cached = record { status = 1; solver = 48 ∷ 120 ∷ 115 ∷ 49 ∷ [] }

abbrev cache : TerminalCache
cache = (97 ∷ 49 ∷ [], cached) ∷ []

cached-Copies : Copies (settled_chain intent) cached
unfolding addr_key text_eq zero_address text
cached-Copies = record {
  status = refl;
  solver = refl;
  ended = (omega arith, omega arith);
  created = refl;
}

cache-Copies :
    (k : Text) (c : CachedTerminalIntent)
    → Dict.get k cache ≡ some c
    → Copies (settled_chain (with_0x k)) c
unfolding Dict.get
cache-Copies k c found = subst (Copies (settled_chain intent)) (ground (arith, found)) cached-Copies

read_solver_record-IsTrackRecord_example :
    IsTrackRecord settled_chain []
      (intent ∷ intent ∷ [])
      (read_solver_record reader [] cache (intent ∷ intent ∷ []) 0).0
read_solver_record-IsTrackRecord_example =
    read_solver_record-IsTrackRecord settled_chain [] reader cache (intent ∷ intent ∷ []) 0
      (λ id w. refl) cache-Copies
