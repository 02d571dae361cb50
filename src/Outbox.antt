-- ===== src/Outbox.antt =====
-- The relay queue of apps/api/src/db/store.js: `emitOutbox`, `pruneOutboxIfDue`, `pruneOutbox` and
-- `outboxLag`.
pub mod Index
pub mod Retention
pub mod Emission
use volt_hub_csms.Prelude.{
  ℕ, suc, ◌+◌, ◌-◌, ◌*◌, Bool, true, false, not, ◌&&◌, ◌||◌, String, List, [], ◌∷◌, ◌++◌, map,
  Option, none, some, ltb, leb, ◌==◌, nat_eq, if◌then◌else◌,
}
use volt_hub_csms.Prelude.Lists.{push, filter, any, take, length}
use volt_hub_csms.State.{Outbox, Event, Payload, DedupeKey, key_eq}

-- The bounds that the environment sets: `OUTBOX_RETENTION_MS`, `OUTBOX_SOFT_CAP`, `OUTBOX_HARD_CAP`
-- and `OUTBOX_PRUNE_INTERVAL_MS`.
pub record Limits : Type 0 where
  pub retention_ms : ℕ
  pub soft_cap : ℕ
  pub hard_cap : ℕ
  pub prune_interval_ms : ℕ

-- A set of keys.
abbrev pub has_key : DedupeKey → List DedupeKey → Bool
has_key k ks = any (λ j. j == k) ks

abbrev pub delete_key : DedupeKey → List DedupeKey → List DedupeKey
delete_key k ks = filter (λ j. not (j == k)) ks

abbrev pub delete_keys : List Event → List DedupeKey → List DedupeKey
delete_keys [] ks = ks
delete_keys (e ∷ es) ks = delete_keys es (delete_key e.dedupe_key ks)

abbrev pub has_id : ℕ → List ℕ → Bool
has_id n ns = any (λ m. m == n) ns

-- `e.processed_at`
abbrev pub is_acked : Event → Bool
is_acked e = elim e.processed_at [ none ↦ false | some _ ↦ true ]

abbrev pub is_pending : Event → Bool
is_pending e = not (is_acked e)

-- `.sort((a, b) => a.event_id - b.event_id)`, a stable sort.
abbrev pub insert_by_id : Event → List Event → List Event
insert_by_id e [] = e ∷ []
insert_by_id e (x ∷ xs) = if ltb e.event_id x.event_id then e ∷ x ∷ xs else x ∷ insert_by_id e xs

unfoldable pub sort_by_id : List Event → List Event
sort_by_id [] = []
sort_by_id (e ∷ es) = insert_by_id e (sort_by_id es)

-- `drop.has(e.event_id)`: an acked event that is past the horizon, or is shed.
abbrev pub is_dropped : Limits → ℕ → List ℕ → Event → Bool
is_dropped l now shed e = elim e.processed_at [
  | none ↦ false
  | some at ↦ ltb (at + l.retention_ms) now || has_id e.event_id shed
]

-- The event that `emitOutbox` appends.
abbrev pub fresh_event : ℕ → DedupeKey → Payload → Outbox → Event
fresh_event now dedupe payload o = record {
  event_id = suc o.seq;
  dedupe_key = dedupe;
  payload = payload;
  created_at = now;
  processed_at = none;
  quarantine_reason = none;
}

unfoldable pub enqueue : ℕ → DedupeKey → Payload → Outbox → Outbox
enqueue now dedupe payload o = record o {
  keys = push dedupe o.keys;
  events = push (fresh_event now dedupe payload o) o.events;
  seq = suc o.seq;
  emitted = o.emitted + 1;
}

module _ (l : Limits) where
  -- The ids in `shed`: the oldest acked events, as many as the queue is over the hard cap.
  unfoldable pub shed_ids : List Event → List ℕ
  shed_ids es =
      map (λ e. e.event_id) (take (length es - l.hard_cap) (sort_by_id (filter is_acked es)))

  -- `s.pruneOutbox`, with the events that left. The source collects the ids of the events to drop and then removes every
  -- event with one of them; here each event is tested itself, which is the same where no two events have
  -- one id. Ids come from `++seq.outbox`.
  unfoldable pub prune_outbox : ℕ → Outbox → Outbox × List Event
  prune_outbox now o =
      let shed = shed_ids o.events in
      let removed = filter (is_dropped l now shed) o.events in
      (
        record o {
          events = filter (λ e. not (is_dropped l now shed e)) o.events;
          keys = delete_keys removed o.keys;
          pruned = o.pruned + length removed;
        },
        removed,
      )

  -- `s.pruneOutboxIfDue`
  unfoldable pub prune_outbox_if_due : ℕ → Outbox → Outbox × List Event
  prune_outbox_if_due now o =
      if leb (length o.events) l.hard_cap && ltb now o.next_prune_at
      then (o, [])
      else prune_outbox now (record o { next_prune_at = now + l.prune_interval_ms })

  -- `s.emitOutbox`
  unfoldable pub emit_outbox : ℕ → DedupeKey → Payload → Outbox → Outbox
  emit_outbox now dedupe payload o =
      if has_key dedupe o.keys
      then o
      else let added = enqueue now dedupe payload o in
        if ltb l.soft_cap (length added.events) then (prune_outbox_if_due now added).0 else added
