-- ===== src/Settlement/Trace.antt =====
-- What the events of a trace owe to the ledgers and to the events before them.
use ma_at.Prelude.{
  ◌≡◌, ◌≢◌, Bool, false, Option, none, some, List, [], ◌∷◌, if◌then◌else◌, Text, text_eq, addr_key,
}
use ma_at.IntentStatus.{
  OnChainIntent, intent_status_pending, intent_status_settled, intent_status_slashed,
  intent_status_refunded,
}
use ma_at.ArbitrumLedger.{ArbitrumStage, ArbitrumLedgerEntry, get_arbitrum_ledger_entry}
use ma_at.SettledLedger.{LedgerEntry, settling, get_ledger_entry}
use ma_at.Settlement.Chain.{intent_of}
use ma_at.Settlement.World.{
  Transaction, post_collateral, confirm_settlement, slash_solver, Event, broadcast, payout, saw,
  checked, World, modify,
}

-- The last reading of an intent, and the last look at a signature.
abbrev pub latest : Text → List Event → Option OnChainIntent
latest id [] = none
latest id (saw j o ∷ t) = if text_eq j id then some o else latest id t
latest id (broadcast tx hash e s ∷ t) = latest id t
latest id (payout j solver z ∷ t) = latest id t
latest id (checked sig landed ∷ t) = latest id t

abbrev pub latest_check : Text → List Event → Option Bool
latest_check sig [] = none
latest_check sig (checked j landed ∷ t) = if text_eq j sig then some landed else latest_check sig t
latest_check sig (saw j o ∷ t) = latest_check sig t
latest_check sig (broadcast tx hash e s ∷ t) = latest_check sig t
latest_check sig (payout j solver z ∷ t) = latest_check sig t

-- The chain had this solver's collateral on the intent, and the intent was Pending.
abbrev pub OpenFor : Text → Option OnChainIntent → Type 0
OpenFor solver none = ⊥
OpenFor solver (some o) = (addr_key o.solver ≡ addr_key solver) × (o.status ≡ intent_status_pending)

-- The chain had the intent neither Settled, nor Slashed, nor Refunded.
abbrev pub Unresolved : Option OnChainIntent → Type 0
Unresolved none = ⊥
Unresolved (some o) =
    (o.status ≢ intent_status_settled)
    × (o.status ≢ intent_status_slashed)
    × (o.status ≢ intent_status_refunded)

-- The signature had not landed when it was last looked at.
abbrev pub NotLanded : Option Text → List Event → Type 0
NotLanded none t = Unit
NotLanded (some sig) t = latest_check sig t ≡ some false

-- No payout is known to have reached the user: none was signed, or it is not confirmed and its
-- signature had not landed.
abbrev pub Undelivered : Option LedgerEntry → List Event → Type 0
Undelivered none t = Unit
Undelivered (some e) t = (e.status ≡ settling) × NotLanded e.solana_sig t

-- The ledger had the transaction's stage, with its hash.
abbrev pub Recorded : Transaction → Text → Option ArbitrumLedgerEntry → Type 0
Recorded tx hash none = ⊥
Recorded (post_collateral id value) hash (some e) =
    (e.stage ≡ ArbitrumStage.posting_collateral) × (e.collateral_tx_hash ≡ some hash)
Recorded (confirm_settlement id z) hash (some e) =
    (e.stage ≡ ArbitrumStage.confirming) × (e.confirm_tx_hash ≡ some hash)
Recorded (slash_solver id) hash (some e) =
    (e.stage ≡ ArbitrumStage.slashing) × (e.slash_tx_hash ≡ some hash)

abbrev pub Warranted : Transaction → Option LedgerEntry → List Event → Type 0
Warranted (post_collateral id value) s t = Unit
Warranted (confirm_settlement id z) s t = Unresolved (latest id t)
Warranted (slash_solver id) s t = Undelivered s t

abbrev pub Justified : Event → List Event → Type 0
Justified (broadcast tx hash e s) t = Recorded tx hash e × Warranted tx s t
Justified (payout id solver z) t = OpenFor solver (latest id t)
Justified (saw id o) t = Unit
Justified (checked sig landed) t = Unit

-- Every event of a trace was justified when it happened.
abbrev pub Sound : List Event → Type 0
Sound [] = Unit
Sound (e ∷ t) = Justified e t × Sound t

module _ {W : Type 0} where
  -- The event of a broadcast in a world.
  abbrev pub sent : Transaction → Text → World W → Event
  sent tx hash w =
      broadcast tx hash (get_arbitrum_ledger_entry (intent_of tx) w.ledger)
        (get_ledger_entry (intent_of tx) w.settled)

  abbrev pub IsSound : World W → Type 0
  IsSound w = Sound w.trace

  -- A step that leaves the trace alone leaves it sound.
  pub modify-IsSound :
      (f : World W → World W) (w : World W)
      → (f w).trace ≡ w.trace
      → IsSound w
      → IsSound (modify f w).1
  unfolding modify
  modify-IsSound f w quiet s = rw quiet s
