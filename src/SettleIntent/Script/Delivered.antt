-- ===== src/SettleIntent/Script/Delivered.antt =====
-- What the exit code of orchestrator/settle_intent.js tells its parent, and when it broadcasts the payout.
use ma_at.Prelude.{ℕ, ◌/◌, ◌≡◌, Option, some, List, ◌∷◌, Text}
use ma_at.SettleIntent.{
  Outcome, Act, printed, heard_go, sent, confirmed, submitted, Process, Script,
}
use ma_at.SettleIntent.Confirm.{Connection}
use ma_at.SettleIntent.Ensures.{InOrder, Ensures, Just}

module _ {W : Type 0} (c : Connection W) (sig : Text) (last_valid deadline : ℕ) (acts : List Act)
    (o : InOrder acts) where
  abbrev Final : Outcome Unit × Process W → Type 0
  Final x = Ensures (Just (confirmed sig ∷ acts)) x

-- All that was done: the signature was printed, the parent said to go on, the payout was broadcast, and it
-- is final.
abbrev handed_over : Text → List Act → List Act
handed_over sig acts = confirmed sig ∷ sent sig ∷ heard_go ∷ printed sig ∷ acts

abbrev HandedOver : List Act → List Act → Type 0
HandedOver acts now = (sig : Text) × (now ≡ handed_over sig acts)

-- The amount was given, its lamports were put into escrow by a transaction of their own, and then the
-- payout was handed over; and nothing else was done.
pub record Delivered (amount_wei : Option ℕ) (before acts : List Act) : Type 0 where
  pub wei : ℕ
  pub given : amount_wei ≡ some wei
  pub sig : Text
  pub shape :
      acts
      ≡ confirmed sig ∷ sent sig ∷ heard_go ∷ printed sig ∷ submitted (wei / 1000000000) ∷ before
