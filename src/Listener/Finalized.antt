-- ===== src/Listener/Finalized.antt =====
-- What the finality poller of orchestrator/src/listener.ts is to make of the state of one intent.
use ma_at.Prelude.{
  ℕ, ◌≡◌, Bool, true, false, ◌&&◌, Option, none, some, if◌then◌else◌, leb, text, text_eq, arith,
}
use ma_at.IntentState.{IntentState, FinalityStatus, pending, final, awaits_finality, is_block_final}
use ma_at.Listener.Events.{arbitrum_sepolia, is_due}

abbrev is_waiting : FinalityStatus → Bool
is_waiting pending = true
is_waiting final = false

abbrev has_block_up_to : ℕ → Option ℕ → Bool
has_block_up_to n none = false
has_block_up_to n (some block) = leb block n

-- It comes from the chain, it waits, and its block is not after the finalized one.
unfoldable pub finalizable : ℕ → IntentState → Bool
finalizable n s =
    text_eq s.source_chain (text "Arbitrum Sepolia")
    && (is_waiting s.finality && has_block_up_to n s.block_number)

abbrev pub finalized_at : ℕ → IntentState → IntentState
finalized_at now s =
    let times = s.timestamps in
    record s {
      finality = final;
      timestamps = record times { final_at = some now };
      updated_at = now;
    }

unfoldable pub finalize : ℕ → ℕ → IntentState → IntentState
finalize now n s = if finalizable n s then finalized_at now s else s

abbrev pub finalize_found : ℕ → ℕ → Option IntentState → Option IntentState
finalize_found now n none = none
finalize_found now n (some s) = some (finalize now n s)

abbrev some_block : Option ℕ → Bool
some_block none = false
some_block (some block) = true

-- The two tests of the code, in the listing and in the loop, come to this one.
pub due-finalizable :
    (n : ℕ) (s : IntentState) → (awaits_finality arbitrum_sepolia s && is_due n s) ≡ finalizable n s
unfolding awaits_finality is_due is_block_final finalizable
due-finalizable n s = go (text_eq s.source_chain arbitrum_sepolia) s.finality s.block_number
  where
    go :
        (here : Bool) (f : FinalityStatus) (b : Option ℕ)
        → ((here && is_waiting f && some_block b)
            && (elim b [ none ↦ false | some block ↦ leb block n ]))
          ≡ (here && (is_waiting f && has_block_up_to n b))
    go here pending none = ground arith
    go here pending (some block) = ground arith
    go here final b = ground arith
