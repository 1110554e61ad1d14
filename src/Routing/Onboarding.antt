-- ===== src/Routing/Onboarding.antt =====
-- loadOnboardingTiers of orchestrator/src/solver_routing.ts: the tier that an operator gives a solver at first.
-- The file is a parameter; a field of another type counts as missing.
use ma_at.Prelude.{
  ℕ, suc, ◌≤◌, ◌≡◌, refl, sym, ◌∙◌, ◌⊎◌, inl, inr, Bool, true, false, ◌&&◌, Option, none, some,
  List, [], ◌∷◌, if◌then◌else◌, leb, Text, text_eq, text_eq_iff, addr_key, Any, or_else, arith,
}
use ma_at.Prelude.Dict
use ma_at.Prelude.Dict.{Dict, get-set}
use ma_at.SolverStats.Record.{SolverRecord}
use ma_at.SolverStats.Tier.{TierConfig, compute_tier}
use ma_at.SolverStats.Tiers.{IsTier, compute_tier-IsTier}

pub record OnboardingEntry : Type 0 where
  pub solver : Option Text
  pub onboarding_tier : Option ℕ

-- What the file holds: nothing that can be read, a value that is not an array, or an array.
pub data OnboardingFile : Type 0 where
  unreadable not_array : OnboardingFile
  array : List OnboardingEntry → OnboardingFile

-- `[1, 2, 3].includes(tier)`
unfoldable pub is_tier : ℕ → Bool
is_tier tier = leb 1 tier && leb tier 3

abbrev pub add_entry : Option Text → Option ℕ → Dict ℕ → Dict ℕ
add_entry (some solver) (some tier) tiers =
    if is_tier tier then Dict.set (addr_key solver) tier tiers else tiers
add_entry _ _ tiers = tiers

unfoldable pub load_tiers : List OnboardingEntry → Dict ℕ → Dict ℕ
unfolding is_tier
load_tiers [] tiers = tiers
load_tiers (e ∷ es) tiers = load_tiers es (add_entry e.solver e.onboarding_tier tiers)

abbrev pub entries_of : OnboardingFile → List OnboardingEntry
entries_of unreadable = []
entries_of not_array = []
entries_of (array entries) = entries

abbrev pub tiers_of : OnboardingFile → Dict ℕ
tiers_of unreadable = []
tiers_of not_array = []
tiers_of (array entries) = load_tiers entries []

unfoldable pub load_onboarding_tiers : OnboardingFile → Text → ℕ
unfolding load_tiers
load_onboarding_tiers file solver = or_else (Dict.get (addr_key solver) (tiers_of file)) 3

-- The entry gives this solver this tier.
abbrev pub Gives : Text → ℕ → OnboardingEntry → Type 0
Gives key tier e =
    (name : Text) × (e.solver ≡ some name)
    × (addr_key name ≡ key)
    × (e.onboarding_tier ≡ some tier)
    × IsTier tier

add_entry-Gives :
    (key : Text) (tier : ℕ) (e : OnboardingEntry) (s : Option Text) (t : Option ℕ) (tiers : Dict ℕ)
    → e.solver ≡ s
    → e.onboarding_tier ≡ t
    → Dict.get key (add_entry s t tiers) ≡ some tier
    → (Dict.get key tiers ≡ some tier) ⊎ Gives key tier e
unfolding is_tier
add_entry-Gives key tier e none t tiers es et h = inl h
add_entry-Gives key tier e (some name) none tiers es et h = inl h
add_entry-Gives key tier e (some name) (some n) tiers es et h = go (is_tier n) refl h
  where
    go :
        (b : Bool)
        → is_tier n ≡ b
        → Dict.get key (if b then Dict.set (addr_key name) n tiers else tiers) ≡ some tier
        → (Dict.get key tiers ≡ some tier) ⊎ Gives key tier e
    go false q k = inl k
    go true q k =
        found (text_eq (addr_key name) key) refl (sym (get-set (addr_key name) key n tiers) ∙ k)
      where
        found :
            (b : Bool)
            → text_eq (addr_key name) key ≡ b
            → (if b then some n else Dict.get key tiers) ≡ some tier
            → (Dict.get key tiers ≡ some tier) ⊎ Gives key tier e
        found false r d = inl d
        found true r d =
            inr (name, es, (text_eq_iff (addr_key name) key).0 r, cc (et, d), ground (arith, q, d))

load_tiers-Gives :
    (key : Text) (tier : ℕ) (es : List OnboardingEntry) (tiers : Dict ℕ)
    → Dict.get key (load_tiers es tiers) ≡ some tier
    → (Dict.get key tiers ≡ some tier) ⊎ Any (Gives key tier) es
unfolding load_tiers
load_tiers-Gives key tier [] tiers h = inl h
load_tiers-Gives key tier (e ∷ es) tiers h =
    elim (load_tiers-Gives key tier es (add_entry e.solver e.onboarding_tier tiers) h) [
      | inr later ↦ inr (inr later)
      | inl now ↦ elim (add_entry-Gives key tier e e.solver e.onboarding_tier tiers refl refl now) [
        | inl old ↦ inl old
        | inr given ↦ inr (inl given)
      ]
    ]

tiers_of-Gives :
    (key : Text) (tier : ℕ) (file : OnboardingFile)
    → Dict.get key (tiers_of file) ≡ some tier
    → Any (Gives key tier) (entries_of file)
unfolding Dict.get
tiers_of-Gives key tier unreadable h = cc
tiers_of-Gives key tier not_array h = cc
tiers_of-Gives key tier (array entries) h = elim (load_tiers-Gives key tier entries [] h) [
  | inl e ↦ absurd (cc e)
  | inr given ↦ given
]

-- A solver without a tier in the file has the worst one.
load_onboarding_tiers-Given :
    (file : OnboardingFile) (solver : Text)
    → (load_onboarding_tiers file solver ≡ 3)
      ⊎ Any (Gives (addr_key solver) (load_onboarding_tiers file solver)) (entries_of file)
unfolding load_onboarding_tiers
load_onboarding_tiers-Given file solver = go (Dict.get (addr_key solver) (tiers_of file)) refl
  where
    go :
        (o : Option ℕ)
        → Dict.get (addr_key solver) (tiers_of file) ≡ o
        → (or_else o 3 ≡ 3) ⊎ Any (Gives (addr_key solver) (or_else o 3)) (entries_of file)
    go none e = inl refl
    go (some tier) e = inr (tiers_of-Gives (addr_key solver) tier file e)

Gives-IsTier :
    (key : Text) (tier : ℕ) (es : List OnboardingEntry) → Any (Gives key tier) es → IsTier tier
Gives-IsTier key tier [] a = elim a [ ]
Gives-IsTier key tier (e ∷ es) (inl given) = given.4
Gives-IsTier key tier (e ∷ es) (inr later) = Gives-IsTier key tier es later

-- The tier that routing gives a solver is 1, 2 or 3, whatever the onboarding file holds and whatever the
-- solver's record is; and only a solver that the file gives tier 1 or 2 can have tier 1.
pub compute_tier-Given :
    (file : OnboardingFile) (solver : Text) (r : SolverRecord) (config : TierConfig)
    (complete : Bool)
    → IsTier (compute_tier (load_onboarding_tiers file solver) r config complete)
      × (compute_tier (load_onboarding_tiers file solver) r config complete ≡ 1
          → (tier : ℕ) × (tier ≤ 2) × Any (Gives (addr_key solver) tier) (entries_of file))
compute_tier-Given file solver r config complete = elim (load_onboarding_tiers-Given file solver) [
  | inl worst ↦ (
    (moved (ground (arith, worst))).0,
    λ best. absurd (ground (arith, worst, best, (moved (ground (arith, worst))).2)),
  )
  | inr given ↦ (
    (moved (Gives-IsTier _ _ _ given)).0,
    λ best. (base, omega (arith, best, (moved (Gives-IsTier _ _ _ given)).2), given),
  )
]
  where
    base : ℕ
    base = load_onboarding_tiers file solver

    moved :
        IsTier base
        → IsTier (compute_tier base r config complete)
          × (compute_tier base r config complete ≤ suc base)
          × (base ≤ suc (compute_tier base r config complete))
    moved h = compute_tier-IsTier base r config complete h
