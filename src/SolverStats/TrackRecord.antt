-- ===== src/SolverStats/TrackRecord.antt =====
-- readSolverRecord of orchestrator/src/solver_stats.ts: its records are the counts of
-- SolverStats.Counts.
use ma_at.Prelude.{
  ◌+◌, ◌≡◌, refl, ap, ◌∙◌, Bool, true, false, some, List, [], ◌∷◌, if◌then◌else◌, arith, Text,
  text_eq, with_0x, or_else,
}
use ma_at.Prelude.Dict
use ma_at.Prelude.Dict.{Dict, get-set}
use ma_at.IntentStatus.{OnChainIntent}
use ma_at.SolverStats.Known.{distinct_keys}
use ma_at.SolverStats.Record.{
  CachedTerminalIntent, TerminalCache, SolverExclusionEntry, Accumulator, empty_record_accumulator,
  Reader, to_record, to_records, read_solver_record,
}
use ma_at.SolverStats.Tally.{tally, Faithful, read_solver_record-tally}
use ma_at.SolverStats.Counts.{
  expected, counts_of, resolved_of, Copies, copied-cacheable, IsTrackRecord, distinct_keys-once,
}
use ma_at.SolverStats.Single.{Accumulator-path, plus, plus_assoc, tallied, counted-tallied}

module _ (chain : Text → OnChainIntent) (exclusions : List SolverExclusionEntry) where
  tally-tallied :
      (s : Text) (keys : List Text) (accs : Dict Accumulator)
      → tallied chain exclusions s (tally chain exclusions keys accs)
        ≡ plus (tallied chain exclusions s accs) (expected chain exclusions s keys)
  tally-tallied s [] accs =
      Accumulator-path (omega arith) (omega arith) (omega arith) (omega arith) (omega arith)
  tally-tallied s (k ∷ ks) accs =
      tally-tallied s ks _
      ∙ ap (λ a. plus a (expected chain exclusions s ks))
          (counted-tallied chain exclusions k s (chain (with_0x k)) accs)
      ∙ plus_assoc (tallied chain exclusions s accs) _ (expected chain exclusions s ks)

  to_records-counts :
      (s : Text) (accs : Dict Accumulator)
      → counts_of (Dict.get s (to_records accs)) ≡ tallied chain exclusions s accs
  unfolding Dict.get to_record
  to_records-counts s [] = refl
  to_records-counts s ((j, acc) ∷ accs) = go (text_eq j s) (to_records-counts s accs)
    where
      go :
          (b : Bool)
          → counts_of (Dict.get s (to_records accs)) ≡ tallied chain exclusions s accs
          → counts_of (if b then some (to_record acc) else Dict.get s (to_records accs))
            ≡ or_else (if b then some acc else Dict.get s accs) empty_record_accumulator
      go true rest = refl
      go false rest = rest

  to_records-resolved :
      (s : Text) (accs : Dict Accumulator)
      → resolved_of (Dict.get s (to_records accs))
        ≡ (tallied chain exclusions s accs).settled + (tallied chain exclusions s accs).slashed
  unfolding Dict.get to_record
  to_records-resolved s [] = refl
  to_records-resolved s ((j, acc) ∷ accs) = ground (arith, to_records-resolved s accs)

  tally-expected :
      (s : Text) (keys : List Text)
      → tallied chain exclusions s (tally chain exclusions keys [])
        ≡ expected chain exclusions s keys
  unfolding Dict.get
  tally-expected s keys =
      tally-tallied s keys []
      ∙ Accumulator-path (omega arith) (omega arith) (omega arith) (omega arith) (omega arith)

  -- With a reader that answers as a fixed chain is, and a cache in which each entry is the status
  -- and the solver of an intent that this chain has as created and ended, the records are complete,
  -- and they are these counts over a list of keys, in which the key of each identifier stands exactly
  -- once, and no other key. For every solver but the zero address, the settled, slashed, refunded and
  -- expired intents are those that were created, that the solver is on, that have this status, and
  -- whose first exclusion, if any, names another solver; the excluded ones are those created, with
  -- the solver on them and one of the four statuses, whose first exclusion names the solver; and the
  -- resolved ones are the settled and the slashed. The zero address has no counts.
  pub read_solver_record-IsTrackRecord :
      {W : Type 0} (read_intent : Reader W) (cache : TerminalCache) (ids : List Text) (w : W)
      → Faithful chain exclusions read_intent
      → ((k : Text) (c : CachedTerminalIntent)
          → Dict.get k cache ≡ some c
          → Copies (chain (with_0x k)) c)
      → IsTrackRecord chain exclusions ids (read_solver_record read_intent exclusions cache ids w).0
  read_solver_record-IsTrackRecord read_intent cache ids w faithful copies =
      let (records, complete) =
        read_solver_record-tally chain exclusions read_intent cache ids w faithful
          (λ k c found. copied-cacheable (chain (with_0x k)) c (copies k c found)) in
      let accs = tally chain exclusions (distinct_keys ids) [] in
      record {
        keys = distinct_keys ids;
        once = λ k. distinct_keys-once k ids;
        counts = λ s. rw records (to_records-counts s accs ∙ tally-expected s (distinct_keys ids));
        resolved = λ s. rw records (
            to_records-resolved s accs
            ∙ ap (λ a. a.settled + a.slashed) (tally-expected s (distinct_keys ids)));
        complete = complete;
      }
