-- ===== src/Tron/Once.antt =====
-- The cursor of orchestrator/src/tron_listener.ts hands each event to its handler once.
use ma_at.Prelude.{
  ℕ, zero, suc, ◌+◌, ◌≤◌, ◌≡◌, refl, subst, ap, ◌∙◌, Bool, true, false, List, [], ◌∷◌, ◌++◌,
  if◌then◌else◌, ltb, length, length-append, Text, arith,
}
use ma_at.Tron.{
  WatchedEvent, TronGridEvent, TronGrid, Fetched, events, failed, fetch_events, EventCursor,
  event_key, has, note, handle_new, bound_memory, after_fetch, poll_event,
}

-- Polls of one event, one after the other: all that is handled, and the cursor.
unfoldable pub polls :
    {W : Type 0}
    → TronGrid W
    → List Text
    → WatchedEvent
    → ℕ
    → EventCursor
    → W
    → List TronGridEvent × EventCursor
polls grid api_keys name zero c o = ([], c)
polls grid api_keys name (suc n) c o =
    let ((handled, c'), o') = poll_event grid api_keys name c o in
    let (later, c'') = polls grid api_keys name n c' o' in (handled ++ later, c'')

-- No event of the list has the key of one before it, or a key in a set.
abbrev pub AllNew : List Text → List TronGridEvent → Type 0
AllNew seen [] = Unit
AllNew seen (ev ∷ evs) = (has (event_key ev) seen ≡ false) × AllNew (event_key ev ∷ seen) evs

-- The set with the keys of the events handled.
abbrev with_keys : List TronGridEvent → List Text → List Text
with_keys [] seen = seen
with_keys (ev ∷ evs) seen = with_keys evs (event_key ev ∷ seen)

length-with_keys :
    (evs : List TronGridEvent) (seen : List Text)
    → length (with_keys evs seen) ≡ length evs + length seen
length-with_keys [] seen = omega arith
length-with_keys (ev ∷ evs) seen = omega (arith, length-with_keys evs (event_key ev ∷ seen))

AllNew-append :
    (xs ys : List TronGridEvent) (seen : List Text)
    → AllNew seen xs
    → AllNew (with_keys xs seen) ys
    → AllNew seen (xs ++ ys)
AllNew-append [] ys seen h k = k
AllNew-append (x ∷ xs) ys seen h k = (h.0, AllNew-append xs ys (event_key x ∷ seen) h.1 k)

-- What a loop leaves: new events handled, their keys kept, and a time that is not before the old one.
record Handled (c : EventCursor) (r : List TronGridEvent × EventCursor) : Type 0 where
  new : AllNew c.seen r.0
  seen : r.1.seen ≡ with_keys r.0 c.seen
  since : c.since_timestamp_ms ≤ r.1.since_timestamp_ms

handle_new-Handled : (evs : List TronGridEvent) (c : EventCursor) → Handled c (handle_new evs c)
unfolding handle_new
handle_new-Handled [] c = record { new = tt; seen = refl; since = omega arith }
handle_new-Handled (ev ∷ evs) c =
    go (handle_new-Handled evs c) (handle_new-Handled evs (note ev c)) (has (event_key ev) c.seen)
      refl
  where
    go :
        Handled c (handle_new evs c)
        → Handled (note ev c) (handle_new evs (note ev c))
        → (b : Bool) → has (event_key ev) c.seen ≡ b
        → Handled c (elim b [
          | true ↦ handle_new evs c
          | false ↦ (ev ∷ (handle_new evs (note ev c)).0, (handle_new evs (note ev c)).1)
        ])
    go old new true e = old
    go old new false e =
        unfold note in
        (record { new = (e, new.new); seen = new.seen; since = ground (arith, new.since) })

after_fetch-Handled :
    (f : Fetched) (c : EventCursor)
    → length c.seen + length (after_fetch f c).0 ≤ 5000
    → Handled c (after_fetch f c)
unfolding bound_memory
after_fetch-Handled (failed e) c few = record { new = tt; seen = refl; since = omega arith }
after_fetch-Handled (events evs) c few = go (ltb 5000 (length (handle_new evs c).1.seen)) refl
  where
    h : Handled c (handle_new evs c)
    h = handle_new-Handled evs c

    sized : length (handle_new evs c).1.seen ≡ length (handle_new evs c).0 + length c.seen
    sized = ap length h.seen ∙ length-with_keys (handle_new evs c).0 c.seen

    go :
        (b : Bool)
        → ltb 5000 (length (handle_new evs c).1.seen) ≡ b
        → Handled c (
          (handle_new evs c).0,
          if b then record (handle_new evs c).1 { seen = [] } else (handle_new evs c).1,
        )
    go true e = absurd (ground (arith, e, sized, few))
    go false e = h

with_keys-append :
    (xs ys : List TronGridEvent) (seen : List Text)
    → with_keys ys (with_keys xs seen) ≡ with_keys (xs ++ ys) seen
with_keys-append [] ys seen = refl
with_keys-append (x ∷ xs) ys seen = with_keys-append xs ys (event_key x ∷ seen)

-- One loop after another.
then_Handled :
    (c : EventCursor) (first later : List TronGridEvent × EventCursor)
    → Handled c first
    → Handled first.1 later
    → Handled c (first.0 ++ later.0, later.1)
then_Handled c first later h k = record {
  new = AllNew-append first.0 later.0 c.seen h.new (subst (λ s. AllNew s later.0) h.seen k.new);
  seen = k.seen ∙ ap (with_keys later.0) h.seen ∙ with_keys-append first.0 later.0 c.seen;
  since = omega (arith, h.since, k.since);
}

polls-Handled :
    {W : Type 0} (grid : TronGrid W) (api_keys : List Text) (name : WatchedEvent) (n : ℕ)
    (c : EventCursor) (o : W)
    → length c.seen + length (polls grid api_keys name n c o).0 ≤ 5000
    → Handled c (polls grid api_keys name n c o)
unfolding polls poll_event
polls-Handled grid api_keys name zero c o few = record {
  new = tt;
  seen = refl;
  since = omega arith;
}
polls-Handled {W} grid api_keys name (suc n) c o few = then_Handled c first later handled (
    polls-Handled grid api_keys name n first.1 o'
      (omega (arith, few, length-append first.0 later.0, sized)))
  where
    o' : W
    o' = (poll_event grid api_keys name c o).1

    first : List TronGridEvent × EventCursor
    first = after_fetch (fetch_events grid name c.since_timestamp_ms api_keys o).0 c

    later : List TronGridEvent × EventCursor
    later = polls grid api_keys name n first.1 o'

    handled : Handled c first
    handled =
        after_fetch-Handled (fetch_events grid name c.since_timestamp_ms api_keys o).0 c
          (omega (arith, few, length-append first.0 later.0))

    sized : length first.1.seen ≡ length first.0 + length c.seen
    sized = ap length handled.seen ∙ length-with_keys first.0 c.seen

-- As long as the cursor has seen 5000 events at most, no polls of an event hand the same event to the
-- handler twice, or one that the cursor has, whatever TronGrid answers; and the time from which on
-- they ask does not go back.
pub polls-AllNew :
    {W : Type 0} (grid : TronGrid W) (api_keys : List Text) (name : WatchedEvent) (n : ℕ)
    (c : EventCursor) (o : W)
    → length c.seen + length (polls grid api_keys name n c o).0 ≤ 5000
    → AllNew c.seen (polls grid api_keys name n c o).0
      × (c.since_timestamp_ms ≤ (polls grid api_keys name n c o).1.since_timestamp_ms)
polls-AllNew grid api_keys name n c o few =
    let h = polls-Handled grid api_keys name n c o few in (h.new, h.since)
