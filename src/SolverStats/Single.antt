-- ===== src/SolverStats/Single.antt =====
-- What one intent adds to the counts of a solver in readSolverRecord of
-- orchestrator/src/solver_stats.ts.
use ma_at.Prelude.{
  ℕ, ◌+◌, ◌≡◌, refl, sym, ap, ◌∙◌, Bool, true, false, not, ◌&&◌, ◌||◌, none, some, List, [], ◌∷◌,
  ◌==◌, if◌then◌else◌, arith, Text, text_eq, text_eq_iff, addr_key, or_else,
}
use ma_at.Prelude.Dict
use ma_at.Prelude.Dict.{Dict, get-set}
use ma_at.IntentStatus.{OnChainIntent, zero_address, is_zero_address}
use ma_at.SolverStats.Record.{
  CachedTerminalIntent, SolverExclusionEntry, Accumulator, empty_record_accumulator,
  is_terminal_status, cacheable, find_exclusion, is_excluded, count_in,
}
use ma_at.SolverStats.Tally.{counted_if}
use ma_at.SolverStats.Counts.{bit, excludes, is_for}

-- Sums of counts.
abbrev pub plus : Accumulator → Accumulator → Accumulator
plus a b = record {
  settled = a.settled + b.settled;
  slashed = a.slashed + b.slashed;
  refunded = a.refunded + b.refunded;
  expired = a.expired + b.expired;
  excluded = a.excluded + b.excluded;
}

pub Accumulator-path :
    {a b : Accumulator}
    → a.settled ≡ b.settled
    → a.slashed ≡ b.slashed
    → a.refunded ≡ b.refunded
    → a.expired ≡ b.expired
    → a.excluded ≡ b.excluded
    → a ≡ b
Accumulator-path p q r s t =
    λ i. record { settled = p i; slashed = q i; refunded = r i; expired = s i; excluded = t i }

pub plus_assoc : (a b c : Accumulator) → plus (plus a b) c ≡ plus a (plus b c)
plus_assoc a b c =
    Accumulator-path (omega arith) (omega arith) (omega arith) (omega arith) (omega arith)

-- What one intent adds: whether it is excluded, whether it is for the solver, and its status.
abbrev one : Bool → Bool → ℕ → Accumulator
one ex f st = record {
  settled = bit (not ex && (f && (st == 1)));
  slashed = bit (not ex && (f && (st == 3)));
  refunded = bit (not ex && (f && (st == 4)));
  expired = bit (not ex && (f && (st == 2)));
  excluded =
      bit
        (ex && (((f && (st == 1)) || (f && (st == 2))) || ((f && (st == 3)) || (f && (st == 4)))));
}

plus-one_counted :
    (ex : Bool) (st : ℕ) (acc : Accumulator)
    → is_terminal_status st ≡ true
    → count_in ex st acc ≡ plus acc (one ex true st)
unfolding count_in is_terminal_status
plus-one_counted ex st acc h =
    Accumulator-path (ground arith) (ground arith) (ground arith) (ground arith) (ground arith)

plus-one_open :
    (ex f : Bool) (st : ℕ) (acc : Accumulator)
    → is_terminal_status st ≡ false
    → acc ≡ plus acc (one ex f st)
unfolding is_terminal_status
plus-one_open ex f st acc h =
    Accumulator-path (ground arith) (ground arith) (ground arith) (ground arith) (ground arith)

plus-one_other : (ex : Bool) (st : ℕ) (acc : Accumulator) → acc ≡ plus acc (one ex false st)
plus-one_other ex st acc =
    Accumulator-path (ground arith) (ground arith) (ground arith) (ground arith) (ground arith)

is_excluded-excludes :
    (k s : Text) (es : List SolverExclusionEntry) → is_excluded k s es ≡ excludes k s es
unfolding is_excluded find_exclusion
is_excluded-excludes k s [] = refl
is_excluded-excludes k s (e ∷ es) = ground (arith, is_excluded-excludes k s es)

module _ (chain : Text → OnChainIntent) (exclusions : List SolverExclusionEntry) where
  abbrev pub tallied : Text → Dict Accumulator → Accumulator
  tallied s accs = or_else (Dict.get s accs) empty_record_accumulator

  get-set_same :
      (s : Text) (acc : Accumulator) (accs : Dict Accumulator)
      → Dict.get s (Dict.set s acc accs) ≡ some acc
  get-set_same s acc accs =
      get-set s s acc accs
      ∙ ap (λ b. if b then some acc else Dict.get s accs) ((text_eq_iff s s).1 refl)

  tallied-set_other :
      (j s : Text) (acc : Accumulator) (accs : Dict Accumulator)
      → text_eq j s ≡ false
      → tallied s (Dict.set j acc accs) ≡ tallied s accs
  tallied-set_other j s acc accs q =
      ap (λ o. or_else o empty_record_accumulator)
        (get-set j s acc accs ∙ ap (λ b. if b then some acc else Dict.get s accs) q)

  counted-own :
      (k s : Text) (st : ℕ) (accs : Dict Accumulator)
      → is_terminal_status st ≡ true
      → tallied s (counted_if chain exclusions k (some (record { status = st; solver = s })) accs)
        ≡ plus (tallied s accs) (one (excludes k s exclusions) (not (text_eq s zero_address)) st)
  counted-own k s st accs h = go (text_eq s zero_address)
    where
      acc : Accumulator
      acc = tallied s accs

      set : Dict Accumulator
      set = Dict.set s (count_in (is_excluded k s exclusions) st acc) accs

      go :
          (b : Bool)
          → tallied s (if b then accs else set)
            ≡ plus acc (one (excludes k s exclusions) (not b) st)
      go true = plus-one_other (excludes k s exclusions) st acc
      go false =
          ap (λ o. or_else o empty_record_accumulator) (get-set_same s _ accs)
          ∙ ap (λ ex. count_in ex st acc) (is_excluded-excludes k s exclusions)
          ∙ plus-one_counted (excludes k s exclusions) st acc h

  counted-some :
      (k s : Text) (c : CachedTerminalIntent) (accs : Dict Accumulator)
      → is_terminal_status c.status ≡ true
      → tallied s (counted_if chain exclusions k (some c) accs)
        ≡ plus (tallied s accs) (
            one
              (excludes k s exclusions)
              (text_eq c.solver s && not (text_eq s zero_address))
              c.status)
  counted-some k s c accs h = go (text_eq c.solver s) refl
    where
      go :
          (b : Bool)
          → text_eq c.solver s ≡ b
          → tallied s (counted_if chain exclusions k (some c) accs)
            ≡ plus
                (tallied s accs)
                (one (excludes k s exclusions) (b && not (text_eq s zero_address)) c.status)
      go true q = rw (sym ((text_eq_iff c.solver s).0 q)) (counted-own k c.solver c.status accs h)
      go false q = other (text_eq c.solver zero_address)
        where
          other :
              (b : Bool)
              → tallied s (
                  if b
                  then accs
                  else Dict.set c.solver
                      (count_in
                        (is_excluded k c.solver exclusions)
                        c.status
                        (tallied c.solver accs))
                      accs)
                ≡ plus (tallied s accs) (one (excludes k s exclusions) false c.status)
          other true = plus-one_other (excludes k s exclusions) c.status (tallied s accs)
          other false =
              tallied-set_other c.solver s _ accs q
              ∙ plus-one_other (excludes k s exclusions) c.status (tallied s accs)

  pub counted-tallied :
      (k s : Text) (o : OnChainIntent) (accs : Dict Accumulator)
      → tallied s (counted_if chain exclusions k (cacheable o) accs)
        ≡ plus (tallied s accs) (one (excludes k s exclusions) (is_for s o) o.status)
  unfolding cacheable is_zero_address
  counted-tallied k s o accs =
      go (is_terminal_status o.status) (text_eq (addr_key o.owner) zero_address) refl
    where
      c : CachedTerminalIntent
      c = record { status = o.status; solver = addr_key o.solver }

      go :
          (t z : Bool)
          → is_terminal_status o.status ≡ t
          → tallied s
              (counted_if chain exclusions k (if t then if z then none else some c else none) accs)
            ≡ plus (tallied s accs) (
                one
                  (excludes k s exclusions)
                  (not z && (text_eq (addr_key o.solver) s && not (text_eq s zero_address)))
                  o.status)
      go false z q =
          plus-one_open (excludes k s exclusions)
            (not z && (text_eq (addr_key o.solver) s && not (text_eq s zero_address))) o.status
            (tallied s accs) q
      go true true q = plus-one_other (excludes k s exclusions) o.status (tallied s accs)
      go true false q = counted-some k s c accs q
