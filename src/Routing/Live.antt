-- ===== src/Routing/Live.antt =====
-- dispatchArbitrumSettlement of orchestrator/src/solver_routing.ts on an intent that is under way.
use ma_at.Prelude.{◌≡◌}
use ma_at.Settlement.World.{World}

module _ {W : Type 0} where
  -- The two ledgers, the book and the trace are as they were: nothing was sent, and nothing recorded.
  pub record Untouched (w w' : World W) : Type 0 where
    pub ledger : w'.ledger ≡ w.ledger
    pub settled : w'.settled ≡ w.settled
    pub book : w'.book ≡ w.book
    pub trace : w'.trace ≡ w.trace
    pub outside : w'.outside ≡ w.outside
