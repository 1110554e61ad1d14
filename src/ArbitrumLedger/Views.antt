-- ===== src/ArbitrumLedger/Views.antt =====
-- The four listings of the ledger against its lookup.
use ma_at.Prelude.{◌≡◌, Text}
use ma_at.Prelude.Dict
use ma_at.Prelude.Dict.{IsDistinct, pass, get-keep_if}
use ma_at.ArbitrumLedger.{
  Ledger, is_mid_sequence, is_posting_collateral, is_awaiting_expiry_slash, is_collateral_posted,
  get_mid_sequence_entries, get_posting_collateral_entries, get_awaiting_expiry_slash_entries,
  get_collateral_posted_entries,
}

-- In a ledger where no key stands twice, each of the four listings has an entry exactly if the
-- lookup finds it with a stage that the listing is for, and has that very entry.
pub get-listings :
    (k : Text) (l : Ledger)
    → IsDistinct l.entries
    → (Dict.get k (get_mid_sequence_entries l)
        ≡ pass (λ e. is_mid_sequence e.stage) (Dict.get k l.entries))
      × (Dict.get k (get_posting_collateral_entries l)
          ≡ pass (λ e. is_posting_collateral e.stage) (Dict.get k l.entries))
      × (Dict.get k (get_awaiting_expiry_slash_entries l)
          ≡ pass (λ e. is_awaiting_expiry_slash e.stage) (Dict.get k l.entries))
      × (Dict.get k (get_collateral_posted_entries l)
          ≡ pass (λ e. is_collateral_posted e.stage) (Dict.get k l.entries))
unfolding get_mid_sequence_entries get_posting_collateral_entries get_awaiting_expiry_slash_entries
    get_collateral_posted_entries
get-listings k l h = (
  get-keep_if _ k l.entries h,
  get-keep_if _ k l.entries h,
  get-keep_if _ k l.entries h,
  get-keep_if _ k l.entries h,
)
