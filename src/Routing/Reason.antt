-- ===== src/Routing/Reason.antt =====
-- The reasons of orchestrator/src/solver_routing.ts, as they are printed.
use ma_at.Prelude.{ℕ, suc, Option, none, some, List, [], ◌∷◌, ◌++◌, Text, text, show_ℕ}
use ma_at.Prelude.Int.{ℤ, pos, negsuc}
use ma_at.Gate.{check_name}
use ma_at.Routing.Candidate.{
  Reason, approval_read_failed, not_approved, balance_read_failed, gate_check,
  insufficient_available_capital, intent_read_failed, intent_not_open_onchain,
  track_record_unavailable, tier_cap_exceeded, CandidateEvaluation,
}
use ma_at.Routing.Decide.{
  Why, only_eligible, smallest_cap, higher_rate, more_capital, lowest_address, Outcome, no_eligible,
  selected, SelectionResult,
}

show_ℤ : ℤ → Text
show_ℤ (pos n) = show_ℕ n
show_ℤ (negsuc n) = text "-" ++ show_ℕ (suc n)

reason_text : Reason → Text
unfolding show_ℤ
reason_text approval_read_failed = text "approval_read_failed"
reason_text not_approved = text "not_approved"
reason_text balance_read_failed = text "balance_read_failed"
reason_text (gate_check c) = check_name c
reason_text (insufficient_available_capital available required) =
    text "insufficient_available_capital(available="
    ++ (show_ℤ available ++ (text ",required=" ++ (show_ℕ required ++ text ")")))
reason_text intent_read_failed = text "intent_read_failed"
reason_text (intent_not_open_onchain status solver) =
    text "intent_not_open_onchain(status="
    ++ (show_ℕ status ++ (text ",solver=" ++ (solver ++ text ")")))
reason_text track_record_unavailable = text "track_record_unavailable"
reason_text (tier_cap_exceeded tier cap amount) =
    text "tier_cap_exceeded(T"
    ++ (show_ℕ tier
        ++ (text " cap=" ++ (show_ℕ cap ++ (text " < amount=" ++ (show_ℕ amount ++ text ")")))))

-- xs.join(sep), with what is to be printed of each
join {ℓ} : {A : Type ℓ} → Text → (A → Text) → List A → Text
join sep f [] = []
join sep f (x ∷ []) = f x
join sep f (x ∷ y ∷ ys) = f x ++ (sep ++ join sep f (y ∷ ys))

why_text : Why → Text
why_text only_eligible = text "only eligible solver"
why_text smallest_cap = text "smallest eligible tier cap"
why_text higher_rate = text "higher success rate"
why_text more_capital = text "more available capital"
why_text lowest_address = text "lowest-address tie-break"

-- T${tier}, of a number or of null
tier_text : Option ℕ → Text
tier_text none = text "Tnull"
tier_text (some tier) = text "T" ++ show_ℕ tier

detail_text : List CandidateEvaluation → Text
unfolding join reason_text
detail_text [] = text "no solvers configured"
detail_text (e ∷ es) =
    join (text "; ") (λ c. c.solver ++ (text ": " ++ join (text ", ") reason_text c.reasons))
      (e ∷ es)

outcome_text : Outcome → List CandidateEvaluation → Text
unfolding detail_text tier_text why_text
outcome_text no_eligible candidates = text "no eligible solver — " ++ detail_text candidates
outcome_text (selected solver tier why) candidates =
    text "selected " ++ (solver ++ (text " (" ++ (tier_text tier ++ (text "): " ++ why_text why))))

-- `reason` of a SelectionResult
unfoldable pub selection_reason : SelectionResult → Text
unfolding outcome_text
selection_reason r = outcome_text r.outcome r.candidates

-- The reason that a refusal is recorded with.
unfoldable pub refusal_reason : SelectionResult → Text
unfolding selection_reason
refusal_reason r =
    text "Arbitrum solver routing REFUSED ("
    ++ (selection_reason r
        ++ text
            ") — not settled; user can reclaim on the source chain via cancelIntent after expiry (no solver collateral) or claimRefund 24h after expiry (solver collateral posted)")
