-- ===== src/SolverStats/Tally.antt =====
-- readSolverRecord of orchestrator/src/solver_stats.ts against the same loop without a cache, which is
-- a step on the way to the counts of SolverStats.Counts.
use ma_at.Prelude.{
  ◌≡◌, refl, sym, ap, ◌∙◌, Bool, true, false, Option, none, some, List, [], ◌∷◌, if◌then◌else◌,
  Text, text_eq, text_eq_iff, with_0x, or_else, is_empty,
}
use ma_at.Prelude.Dict
use ma_at.Prelude.Dict.{Dict, get-set}
use ma_at.IntentStatus.{OnChainIntent, zero_address}
use ma_at.Settlement.World.{ok}
use ma_at.SolverStats.Known.{distinct_keys}
use ma_at.SolverStats.Record.{
  CachedTerminalIntent, TerminalCache, SolverExclusionEntry, Accumulator, empty_record_accumulator,
  cacheable, is_excluded, count_in, Progress, count_intent, count_read, count_reply, Reader, visit,
  visit_all, to_records, start, read_solver_record,
}

module _ (chain : Text → OnChainIntent) (exclusions : List SolverExclusionEntry) where
  -- What a terminal intent adds to the counts.
  abbrev counted : Text → CachedTerminalIntent → Dict Accumulator → Dict Accumulator
  counted key c accs =
      if text_eq c.solver zero_address
      then accs
      else Dict.set c.solver
          (count_in (is_excluded key c.solver exclusions) c.status
            (or_else (Dict.get c.solver accs) empty_record_accumulator))
          accs

  abbrev pub counted_if : Text → Option CachedTerminalIntent → Dict Accumulator → Dict Accumulator
  counted_if key none accs = accs
  counted_if key (some c) accs = counted key c accs

  -- The same loop without a cache: each intent counts as the chain has it.
  abbrev pub tally : List Text → Dict Accumulator → Dict Accumulator
  tally [] accs = accs
  tally (key ∷ keys) accs = tally keys (counted_if key (cacheable (chain (with_0x key))) accs)

  -- A cache that says nothing but what the chain says.
  abbrev pub Agrees : TerminalCache → Type 0
  Agrees cache =
      (k : Text) (c : CachedTerminalIntent)
      → Dict.get k cache ≡ some c
      → cacheable (chain (with_0x k)) ≡ some c

  -- A reader that answers as the chain is.
  abbrev pub Faithful : {W : Type 0} → Reader W → Type 0
  Faithful {W} read_intent = (id : Text) (w : W) → (read_intent id w).0 ≡ ok (chain id)

  record IsTally (accs : Dict Accumulator) (p : Progress) : Type 0 where
    counts : p.accumulators ≡ accs
    no_errors : p.errors ≡ []
    agrees : Agrees p.cache

  count_intent-IsTally :
      (key : Text) (c : CachedTerminalIntent) (accs : Dict Accumulator) (p : Progress)
      → IsTally accs p
      → IsTally (counted key c accs) (count_intent exclusions key c p)
  unfolding count_intent
  count_intent-IsTally key c accs p t = go (text_eq c.solver zero_address)
    where
      add : Dict Accumulator → Dict Accumulator
      add accs' =
          Dict.set c.solver
            (count_in (is_excluded key c.solver exclusions) c.status
              (or_else (Dict.get c.solver accs') empty_record_accumulator))
            accs'

      go :
          (b : Bool)
          → IsTally
              (if b then accs else add accs)
              (if b then p else record p { accumulators = add p.accumulators })
      go true = t
      go false = record { counts = ap add t.counts; no_errors = t.no_errors; agrees = t.agrees }

  -- A terminal intent that the chain was read for is put in the cache as the chain has it.
  set-Agrees :
      (key : Text) (c : CachedTerminalIntent) (cache : TerminalCache)
      → Agrees cache
      → cacheable (chain (with_0x key)) ≡ some c
      → Agrees (Dict.set key c cache)
  set-Agrees key c cache h e k d found =
      go (text_eq key k) refl (sym (get-set key k c cache) ∙ found)
    where
      go :
          (b : Bool)
          → text_eq key k ≡ b
          → (if b then some c else Dict.get k cache) ≡ some d
          → cacheable (chain (with_0x k)) ≡ some d
      go true q f = ap (λ x. cacheable (chain (with_0x x))) (sym ((text_eq_iff key k).0 q)) ∙ e ∙ f
      go false q f = h k d f

  visit-IsTally :
      {W : Type 0} (read_intent : Reader W) (key : Text) (accs : Dict Accumulator) (p : Progress)
      (w : W) (found : Option CachedTerminalIntent)
      → Faithful read_intent
      → Dict.get key p.cache ≡ found
      → IsTally accs p
      → IsTally
          (counted_if key (cacheable (chain (with_0x key))) accs)
          (visit read_intent exclusions key found (p, w)).0
  unfolding visit count_reply count_read
  visit-IsTally read_intent key accs p w (some c) faithful found t =
      rw (t.agrees key c found) (count_intent-IsTally key c accs p t)
  visit-IsTally read_intent key accs p w none faithful found t =
      rw (faithful (with_0x key) w) (reply-IsTally (cacheable (chain (with_0x key))) refl)
    where
      reply-IsTally :
          (o : Option CachedTerminalIntent)
          → cacheable (chain (with_0x key)) ≡ o
          → IsTally (counted_if key o accs) (count_read exclusions key o p)
      reply-IsTally none e = t
      reply-IsTally (some c) e = count_intent-IsTally key c accs _ (record {
        counts = t.counts;
        no_errors = t.no_errors;
        agrees = set-Agrees key c p.cache t.agrees e;
      })

  visit_all-IsTally :
      {W : Type 0} (read_intent : Reader W) (keys : List Text) (accs : Dict Accumulator)
      (p : Progress) (w : W)
      → Faithful read_intent
      → IsTally accs p
      → IsTally (tally keys accs) (visit_all read_intent exclusions keys (p, w)).0
  unfolding visit_all
  visit_all-IsTally read_intent [] accs p w faithful t = t
  visit_all-IsTally read_intent (key ∷ keys) accs p w faithful t =
      visit_all-IsTally read_intent keys _ _ _ faithful
        (visit-IsTally read_intent key accs p w (Dict.get key p.cache) faithful refl t)

  -- With a reader that answers as the chain is, and a cache that agrees with the chain, the records
  -- are those of a tally over the distinct identifiers, each counted as the chain has it, and
  -- complete: what the cache has makes no difference.
  pub read_solver_record-tally :
      {W : Type 0} (read_intent : Reader W) (cache : TerminalCache) (ids : List Text) (w : W)
      → Faithful read_intent
      → Agrees cache
      → ((read_solver_record read_intent exclusions cache ids w).0.records
          ≡ to_records (tally (distinct_keys ids) []))
        × ((read_solver_record read_intent exclusions cache ids w).0.complete ≡ true)
  unfolding read_solver_record
  read_solver_record-tally read_intent cache ids w faithful agrees =
      let t =
        visit_all-IsTally read_intent (distinct_keys ids) [] (start cache) w faithful
          (record { counts = refl; no_errors = refl; agrees = agrees }) in
      (ap to_records t.counts, ap is_empty t.no_errors)
