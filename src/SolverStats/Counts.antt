-- ===== src/SolverStats/Counts.antt =====
-- readSolverRecord of orchestrator/src/solver_stats.ts against counts that are written out: of the
-- distinct intents, how many the chain has with each outcome for a solver.
use ma_at.Prelude.{
  ℕ, ◌+◌, ◌≤◌, ◌≡◌, refl, sym, ap, ◌∙◌, Bool, true, false, not, ◌&&◌, ◌||◌, Option, none, some,
  List, [], ◌∷◌, ◌++◌, ◌==◌, map, if◌then◌else◌, arith, Text, text_eq, text_eq_iff, key_of, with_0x,
  addr_key,
}
use ma_at.Prelude.Dict
use ma_at.Prelude.Dict.{Dict, get-set}
use ma_at.IntentStatus.{OnChainIntent, zero_address, is_zero_address}
use ma_at.SolverStats.Known.{has, add_all, distinct_keys}
use ma_at.SolverStats.Record.{
  CachedTerminalIntent, SolverExclusionEntry, Accumulator, empty_record_accumulator, SolverRecord,
  is_terminal_status, cacheable, ReadSolverRecordResult,
}

abbrev pub bit : Bool → ℕ
bit true = 1
bit false = 0

abbrev pub how_many : (Text → Bool) → List Text → ℕ
how_many p [] = 0
how_many p (k ∷ ks) = bit (p k) + how_many p ks

-- Some identifier is the intent with this key.
abbrev pub is_named : Text → List Text → Bool
is_named k [] = false
is_named k (id ∷ ids) = text_eq (key_of id) k || is_named k ids

-- The first exclusion of the intent names the solver.
abbrev pub excludes : Text → Text → List SolverExclusionEntry → Bool
excludes k s [] = false
excludes k s (e ∷ es) =
    if text_eq (key_of e.intent_id) k then text_eq (addr_key e.solver) s else excludes k s es

-- An intent that was created, and that the solver is on.
abbrev pub is_for : Text → OnChainIntent → Bool
is_for s o =
    not (text_eq (addr_key o.owner) zero_address)
    && (text_eq (addr_key o.solver) s && not (text_eq s zero_address))

module _ (chain : Text → OnChainIntent) (exclusions : List SolverExclusionEntry) where
  abbrev pub ends_with : ℕ → Text → Text → Bool
  ends_with status s k = is_for s (chain (with_0x k)) && ((chain (with_0x k)).status == status)

  abbrev pub counts_with : ℕ → Text → Text → Bool
  counts_with status s k = not (excludes k s exclusions) && ends_with status s k

  abbrev pub is_left_out : Text → Text → Bool
  is_left_out s k =
      excludes k s exclusions
      && ((ends_with 1 s k || ends_with 2 s k) || (ends_with 3 s k || ends_with 4 s k))

  -- The statuses are those of the contract: 1 settled, 2 expired, 3 slashed, 4 refunded.
  abbrev pub expected : Text → List Text → Accumulator
  expected s keys = record {
    settled = how_many (counts_with 1 s) keys;
    slashed = how_many (counts_with 3 s) keys;
    refunded = how_many (counts_with 4 s) keys;
    expired = how_many (counts_with 2 s) keys;
    excluded = how_many (is_left_out s) keys;
  }

abbrev pub counts_of : Option SolverRecord → Accumulator
counts_of none = empty_record_accumulator
counts_of (some r) = r.counts

abbrev pub resolved_of : Option SolverRecord → ℕ
resolved_of none = 0
resolved_of (some r) = r.resolved

-- A cache entry is a copy of what the chain has: the status and the solver of an intent that was
-- created and has ended.
pub record Copies (o : OnChainIntent) (c : CachedTerminalIntent) : Type 0 where
  pub status : c.status ≡ o.status
  pub solver : c.solver ≡ addr_key o.solver
  pub ended : (1 ≤ o.status) × (o.status ≤ 4)
  pub created : text_eq (addr_key o.owner) zero_address ≡ false

pub copied-cacheable :
    (o : OnChainIntent) (c : CachedTerminalIntent) → Copies o c → cacheable o ≡ some c
unfolding cacheable is_zero_address
copied-cacheable o c d =
    rw (terminal, d.created)
      (λ i. some (record { status = sym d.status i; solver = sym d.solver i }))
  where
    terminal : is_terminal_status o.status ≡ true
    terminal = unfold is_terminal_status in ground (arith, d.ended.0, d.ended.1)

pub record IsTrackRecord (chain : Text → OnChainIntent) (exclusions : List SolverExclusionEntry)
    (ids : List Text) (result : ReadSolverRecordResult) : Type 0 where
  pub keys : List Text
  pub once : (k : Text) → how_many (λ x. text_eq x k) keys ≡ bit (is_named k ids)
  pub counts : (s : Text) → counts_of (Dict.get s result.records) ≡ expected chain exclusions s keys
  pub resolved :
      (s : Text)
      → resolved_of (Dict.get s result.records)
        ≡ how_many (counts_with chain exclusions 1 s) keys
          + how_many (counts_with chain exclusions 3 s) keys
  pub complete : result.complete ≡ true

has-append : (k j : Text) (ids : List Text) → has k (ids ++ (j ∷ [])) ≡ (has k ids || text_eq j k)
unfolding has
has-append k j [] = ground arith
has-append k j (i ∷ ids) = ground (arith, has-append k j ids)

how_many-append :
    (p : Text → Bool) (j : Text) (ids : List Text)
    → how_many p (ids ++ (j ∷ [])) ≡ how_many p ids + bit (p j)
how_many-append p j [] = ground arith
how_many-append p j (i ∷ ids) = ground (arith, how_many-append p j ids)

has-same : (k j : Text) (ids : List Text) → text_eq j k ≡ true → has j ids ≡ has k ids
has-same k j ids h = ap (λ x. has x ids) ((text_eq_iff j k).0 h)

add_all-once :
    (k : Text) (ks ids : List Text)
    → how_many (λ x. text_eq x k) ids ≡ bit (has k ids)
    → how_many (λ x. text_eq x k) (add_all ks ids) ≡ bit (has k ids || has k ks)
unfolding add_all has
add_all-once k [] ids h = ground arith
add_all-once k (j ∷ ks) ids h = go (has j ids) refl (add_all-once k ks)
  where
    go :
        (b : Bool)
        → has j ids ≡ b
        → ((ids : List Text)
            → how_many (λ x. text_eq x k) ids ≡ bit (has k ids)
            → how_many (λ x. text_eq x k) (add_all ks ids) ≡ bit (has k ids || has k ks))
        → how_many (λ x. text_eq x k) (add_all ks (if b then ids else ids ++ (j ∷ [])))
          ≡ bit (has k ids || (text_eq j k || has k ks))
    go true q rest = rest ids h ∙ ground (arith, has-same k j ids)
    go false q rest =
        rest (ids ++ (j ∷ [])) (
          rw (how_many-append (λ x. text_eq x k) j ids, has-append k j ids)
            (ground (arith, has-same k j ids)))
        ∙ rw (has-append k j ids) (ground arith)

has-is_named : (k : Text) (ids : List Text) → has k (map key_of ids) ≡ is_named k ids
unfolding has
has-is_named k [] = refl
has-is_named k (id ∷ ids) = ap (λ b. text_eq (key_of id) k || b) (has-is_named k ids)

pub distinct_keys-once :
    (k : Text) (ids : List Text)
    → how_many (λ x. text_eq x k) (distinct_keys ids) ≡ bit (is_named k ids)
unfolding distinct_keys
distinct_keys-once k ids = add_all-once k (map key_of ids) [] refl ∙ ap bit (has-is_named k ids)
