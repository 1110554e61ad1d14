-- ===== src/SolverStats/Record.antt =====
-- readSolverRecord of orchestrator/src/solver_stats.ts. The chain reader is an argument; the cache
-- that is loaded comes in, and the one that is saved goes out.
use ma_at.Prelude.{
  ℕ, suc, ◌+◌, Bool, true, false, ◌||◌, Option, none, some, List, [], ◌∷◌, ◌++◌, ◌==◌,
  if◌then◌else◌, is_empty, Text, text_eq, key_of, with_0x, addr_key, or_else,
}
use ma_at.Prelude.Dict
use ma_at.Prelude.Dict.{Dict}
use ma_at.IntentStatus.{
  OnChainIntent, zero_address, is_zero_address, intent_status_settled, intent_status_slashed,
  intent_status_refunded, intent_status_expired,
}
use ma_at.Settlement.World.{Reply, ok, threw, unfinished}
use ma_at.SolverStats.Known.{distinct_keys}

pub record CachedTerminalIntent : Type 0 where
  pub status : ℕ
  pub solver : Text  -- lowercased

abbrev pub TerminalCache : Type 0
TerminalCache = Dict CachedTerminalIntent

pub record SolverExclusionEntry : Type 0 where
  pub intent_id : Text
  pub solver : Text
  pub reason : Text

pub record Accumulator : Type 0 where
  pub settled : ℕ
  pub slashed : ℕ
  pub refunded : ℕ
  pub expired : ℕ
  pub excluded : ℕ

abbrev pub empty_record_accumulator : Accumulator
empty_record_accumulator = record {
  settled = 0;
  slashed = 0;
  refunded = 0;
  expired = 0;
  excluded = 0;
}

-- A quotient of two counts, which the code keeps as a double. Compared with one another and with
-- decimal thresholds, doubles of such quotients are ordered as the quotients are.
pub record Rate : Type 0 where
  pub num : ℕ
  pub den : ℕ

pub record SolverRecord : Type 0 where
  pub counts : Accumulator
  pub open counts use *
  pub resolved : ℕ
  pub success_rate : Option Rate

unfoldable pub is_terminal_status : ℕ → Bool
is_terminal_status status =
    (status == intent_status_settled)
    || (status == intent_status_slashed)
    || (status == intent_status_refunded)
    || (status == intent_status_expired)

-- What a read of the chain adds to the cache: nothing for an intent that is not terminal, or that
-- was never created.
unfoldable pub cacheable : OnChainIntent → Option CachedTerminalIntent
unfolding is_terminal_status
cacheable o =
    if is_terminal_status o.status
    then if is_zero_address o.owner
      then none
      else some (record { status = o.status; solver = addr_key o.solver })
    else none

-- exclusions.find((e) => keyOf(e.intentId) === idHex)
unfoldable pub find_exclusion : Text → List SolverExclusionEntry → Option SolverExclusionEntry
find_exclusion key [] = none
find_exclusion key (e ∷ es) =
    if text_eq (key_of e.intent_id) key then some e else find_exclusion key es

abbrev names_solver : Text → Option SolverExclusionEntry → Bool
names_solver solver none = false
names_solver solver (some e) = text_eq (addr_key e.solver) solver

-- An entry that names another solver than the chain does is not applied.
unfoldable pub is_excluded : Text → Text → List SolverExclusionEntry → Bool
unfolding find_exclusion
is_excluded key solver exclusions = names_solver solver (find_exclusion key exclusions)

unfoldable pub count_in : Bool → ℕ → Accumulator → Accumulator
count_in excluded status acc =
    if excluded
    then record acc { excluded = suc acc.excluded }
    else if status == intent_status_settled
    then record acc { settled = suc acc.settled }
    else if status == intent_status_slashed
    then record acc { slashed = suc acc.slashed }
    else if status == intent_status_refunded
    then record acc { refunded = suc acc.refunded }
    else if status == intent_status_expired
    then record acc { expired = suc acc.expired }
    else acc

pub record Progress : Type 0 where
  pub cache : TerminalCache
  pub accumulators : Dict Accumulator
  pub errors : List (Text × Text)
  pub cache_dirty : Bool

-- The second half of the loop's body, for a terminal intent.
unfoldable pub count_intent :
    List SolverExclusionEntry → Text → CachedTerminalIntent → Progress → Progress
unfolding is_excluded count_in
count_intent exclusions key c p =
    if text_eq c.solver zero_address
    then p
    else let acc = or_else (Dict.get c.solver p.accumulators) empty_record_accumulator in
      record p {
        accumulators =
            Dict.set c.solver (count_in (is_excluded key c.solver exclusions) c.status acc)
              p.accumulators;
      }

unfoldable pub count_read :
    List SolverExclusionEntry → Text → Option CachedTerminalIntent → Progress → Progress
unfolding count_intent
count_read exclusions key none p = p
count_read exclusions key (some c) p =
    count_intent exclusions key c (record p { cache = Dict.set key c p.cache; cache_dirty = true })

unfoldable pub count_reply :
    List SolverExclusionEntry → Text → Reply OnChainIntent → Progress → Progress
unfolding count_read cacheable
count_reply exclusions key (ok o) p = count_read exclusions key (cacheable o) p
count_reply exclusions key (threw e) p = record p { errors = p.errors ++ ((with_0x key, e) ∷ []) }
count_reply exclusions key unfinished p = p

-- SolverStatsDeps.readIntent
abbrev pub Reader : Type 0 → Type 0
Reader W = Text → W → Reply OnChainIntent × W

module _ {W : Type 0} (read_intent : Reader W) (exclusions : List SolverExclusionEntry) where
  -- The loop's body: the cache first, the chain for what it does not have.
  unfoldable pub visit : Text → Option CachedTerminalIntent → Progress × W → Progress × W
  visit key (some c) (p, w) = (count_intent exclusions key c p, w)
  visit key none (p, w) =
      let (reply, w') = read_intent (with_0x key) w in (count_reply exclusions key reply p, w')

  unfoldable pub visit_all : List Text → Progress × W → Progress × W
  unfolding visit
  visit_all [] s = s
  visit_all (key ∷ keys) s = visit_all keys (visit key (Dict.get key s.0.cache) s)

unfoldable pub to_record : Accumulator → SolverRecord
to_record acc = record {
  counts = acc;
  resolved = acc.settled + acc.slashed;
  success_rate =
      if (acc.settled + acc.slashed) == 0
      then none
      else some (record { num = acc.settled; den = acc.settled + acc.slashed });
}

pub record ReadSolverRecordResult : Type 0 where
  pub records : Dict SolverRecord
  pub errors : List (Text × Text)
  pub complete : Bool

abbrev pub start : TerminalCache → Progress
start cache = record { cache = cache; accumulators = []; errors = []; cache_dirty = false }

abbrev pub to_records : Dict Accumulator → Dict SolverRecord
to_records [] = []
to_records ((solver, acc) ∷ accs) = (solver, to_record acc) ∷ to_records accs

abbrev pub to_result : Progress → ReadSolverRecordResult
to_result p = record {
  records = to_records p.accumulators;
  errors = p.errors;
  complete = is_empty p.errors;
}

-- The result, the cache as it is on file afterwards, and the outside.
unfoldable pub read_solver_record :
    {W : Type 0}
    → Reader W
    → List SolverExclusionEntry
    → TerminalCache
    → List Text
    → W
    → ReadSolverRecordResult × TerminalCache × W
unfolding visit_all
read_solver_record read_intent exclusions cache intent_ids w =
    let (p, w') = visit_all read_intent exclusions (distinct_keys intent_ids) (start cache, w) in
    (to_result p, if p.cache_dirty then p.cache else cache, w')
