-- ===== src/ArbitrumLedger/Laws.antt =====
-- What a stage write does to the ledger's entries and its file.
use ma_at.Prelude.{
  ℕ, ◌≡◌, refl, Option, none, some, arith, if◌then◌else◌, Text, key_of, text_eq, text_eq_refl,
}
use ma_at.Prelude.Dict.{get-set, IsDistinct, set-IsDistinct}
use ma_at.ArbitrumLedger.{
  ArbitrumLedgerEntry, RoutingDecision, no_routing, ArbitrumStage, Ledger, Patch, Given, absent,
  given, over, spread, over_routing, load_ledger, merge, get_arbitrum_ledger_entry,
  set_arbitrum_stage,
}

-- One entry changes: the one of the key that both spellings of an identifier have.
pub get_entry-set_stage :
    (id j : Text) (stage : ArbitrumStage) (patch : Patch) (now : ℕ) (l : Ledger)
    → get_arbitrum_ledger_entry j (set_arbitrum_stage id stage patch now l) ≡ (
        if text_eq (key_of id) (key_of j)
        then some (merge (get_arbitrum_ledger_entry id l) stage patch now)
        else get_arbitrum_ledger_entry j l)
unfolding get_arbitrum_ledger_entry set_arbitrum_stage
get_entry-set_stage id j stage patch now l = get-set (key_of id) (key_of j) _ l.entries

pub get_entry-set_stage_self :
    (id : Text) (stage : ArbitrumStage) (patch : Patch) (now : ℕ) (l : Ledger)
    → get_arbitrum_ledger_entry id (set_arbitrum_stage id stage patch now l)
      ≡ some (merge (get_arbitrum_ledger_entry id l) stage patch now)
get_entry-set_stage_self id stage patch now l = rw (get_entry-set_stage, text_eq_refl)

pub set_arbitrum_stage-IsDistinct :
    (id : Text) (stage : ArbitrumStage) (patch : Patch) (now : ℕ) (l : Ledger)
    → IsDistinct l.entries
    → IsDistinct (set_arbitrum_stage id stage patch now l).entries
unfolding set_arbitrum_stage
set_arbitrum_stage-IsDistinct id stage patch now l h = set-IsDistinct (key_of id) _ l.entries h

-- What a patch makes of a field: what it gives, also where it gives nothing, or else what was there.
abbrev pub IsTaken : {A : Type 0} → Given A → A → A → Type 0
IsTaken absent old new = new ≡ old
IsTaken (given x) old new = new ≡ x

-- What a part of a routing decision makes of it.
abbrev pub IsSpread : {A : Type 0} → Option A → Option A → Option A → Type 0
IsSpread none old new = new ≡ old
IsSpread (some x) old new = new ≡ some x

abbrev pub IsRerouted : Option RoutingDecision → RoutingDecision → RoutingDecision → Type 0
IsRerouted none old new = new ≡ old
IsRerouted (some r) old new =
    IsSpread r.selected_solver old.selected_solver new.selected_solver
    × IsSpread r.tier_at_selection old.tier_at_selection new.tier_at_selection
    × IsSpread r.routing_reason old.routing_reason new.routing_reason
    × IsSpread r.collateral_wei old.collateral_wei new.collateral_wei

-- The entry that an intent had, or one that has nothing.
abbrev pub old_entry : Option ArbitrumLedgerEntry → ArbitrumLedgerEntry
old_entry (some e) = e
old_entry none = record {
  stage = ArbitrumStage.posting_collateral;
  routing = no_routing;
  collateral_tx_hash = none;
  confirm_tx_hash = none;
  slash_tx_hash = none;
  expiry = none;
  solver = none;
  updated_at = 0;
}

-- An entry after a write: its stage, and each field as the patch has it or as it was.
pub record IsPatched (old : ArbitrumLedgerEntry) (stage : ArbitrumStage) (patch : Patch)
    (new : ArbitrumLedgerEntry) : Type 0 where
  pub staged : new.stage ≡ stage
  pub routing : IsRerouted patch.routing old.routing new.routing
  pub collateral_tx_hash :
      IsTaken patch.collateral_tx_hash old.collateral_tx_hash new.collateral_tx_hash
  pub confirm_tx_hash : IsTaken patch.confirm_tx_hash old.confirm_tx_hash new.confirm_tx_hash
  pub slash_tx_hash : IsTaken patch.slash_tx_hash old.slash_tx_hash new.slash_tx_hash
  pub expiry : IsTaken patch.expiry old.expiry new.expiry
  pub solver : IsTaken patch.solver old.solver new.solver

over-IsTaken : {A : Type 0} (g : Given A) (old : A) → IsTaken g old (over g old)
over-IsTaken absent old = refl
over-IsTaken (given x) old = refl

spread-IsSpread : {A : Type 0} (o old : Option A) → IsSpread o old (spread o old)
spread-IsSpread none old = refl
spread-IsSpread (some x) old = refl

over_routing-IsRerouted :
    (r : Option RoutingDecision) (old : RoutingDecision) → IsRerouted r old (over_routing r old)
unfolding over_routing
over_routing-IsRerouted none old = refl
over_routing-IsRerouted (some r) old = (
  spread-IsSpread r.selected_solver old.selected_solver,
  spread-IsSpread r.tier_at_selection old.tier_at_selection,
  spread-IsSpread r.routing_reason old.routing_reason,
  spread-IsSpread r.collateral_wei old.collateral_wei,
)

merged-IsPatched :
    (e : ArbitrumLedgerEntry) (stage : ArbitrumStage) (patch : Patch) (now : ℕ)
    → IsPatched e stage patch (merge (some e) stage patch now)
unfolding merge
merged-IsPatched e stage patch now = record {
  staged = refl;
  routing = over_routing-IsRerouted patch.routing e.routing;
  collateral_tx_hash = over-IsTaken patch.collateral_tx_hash e.collateral_tx_hash;
  confirm_tx_hash = over-IsTaken patch.confirm_tx_hash e.confirm_tx_hash;
  slash_tx_hash = over-IsTaken patch.slash_tx_hash e.slash_tx_hash;
  expiry = over-IsTaken patch.expiry e.expiry;
  solver = over-IsTaken patch.solver e.solver;
}

merge-IsPatched :
    (prev : Option ArbitrumLedgerEntry) (stage : ArbitrumStage) (patch : Patch) (now : ℕ)
    → IsPatched (old_entry prev) stage patch (merge prev stage patch now)
unfolding merge
merge-IsPatched none stage patch now = merged-IsPatched (old_entry none) stage patch now
merge-IsPatched (some e) stage patch now = merged-IsPatched e stage patch now

-- A process that starts again reads the ledger from its file.
abbrev pub restarted : Ledger → Ledger
restarted l = load_ledger l.file

-- Any stage write is on file when it returns: in a process that restarts from the file, the intent has an
-- entry with the new stage, in which each of the hashes, the expiry, the solver and the fields of the
-- routing decision is what the patch gives, or else what it was before; and every other intent has
-- the entry that it had.
pub restart-set_stage :
    (id j : Text) (stage : ArbitrumStage) (patch : Patch) (now : ℕ) (l : Ledger)
    → ((e : ArbitrumLedgerEntry) × (get_arbitrum_ledger_entry id
            (restarted (set_arbitrum_stage id stage patch now l))
          ≡ some e)
        × IsPatched (old_entry (get_arbitrum_ledger_entry id l)) stage patch e)
      × (get_arbitrum_ledger_entry j (restarted (set_arbitrum_stage id stage patch now l)) ≡ (
          if text_eq (key_of id) (key_of j)
          then get_arbitrum_ledger_entry id (restarted (set_arbitrum_stage id stage patch now l))
          else get_arbitrum_ledger_entry j l))
unfolding set_arbitrum_stage get_arbitrum_ledger_entry load_ledger
restart-set_stage id j stage patch now l = (
  (
    merge (get_arbitrum_ledger_entry id l) stage patch now,
    ground (
      arith,
      text_eq_refl (key_of id),
      get-set (key_of id) (key_of id) (merge (get_arbitrum_ledger_entry id l) stage patch now)
          l.entries,
    ),
    merge-IsPatched (get_arbitrum_ledger_entry id l) stage patch now,
  ),
  ground (
    arith,
    text_eq_refl (key_of id),
    get-set (key_of id) (key_of id) (merge (get_arbitrum_ledger_entry id l) stage patch now)
        l.entries,
    get-set (key_of id) (key_of j) (merge (get_arbitrum_ledger_entry id l) stage patch now)
        l.entries,
  ),
)
