-- ===== src/Outbox/Retention.antt =====
-- About `pruneOutbox` of apps/api/src/db/store.js.
use volt_hub_csms.Prelude.{
  ℕ, zero, suc, ◌+◌, ◌-◌, ◌≤◌, ◌≡◌, refl, Bool, true, false, not, List, [], ◌∷◌, map, arith, nat_eq,
  leb,
}
use volt_hub_csms.Prelude.Lists.{
  filter, any, take, count, length, any-filter-false, length-filter-not,
}
use volt_hub_csms.State.{Outbox, Event}
use volt_hub_csms.Outbox.{
  Limits, is_acked, is_pending, has_id, insert_by_id, sort_by_id, is_dropped, shed_ids,
  prune_outbox,
}

-- Event ids rise along the queue.
abbrev pub Ascending : List Event → Type 0
Ascending [] = Unit
Ascending (e ∷ es) = (any (λ x. leb x.event_id e.event_id) es ≡ false) × Ascending es

filter-kept_pending :
    (l : Limits) (now : ℕ) (shed : List ℕ) (es : List Event)
    → filter is_pending (filter (λ e. not (is_dropped l now shed e)) es) ≡ filter is_pending es
filter-kept_pending l now shed [] = refl
filter-kept_pending l now shed (e ∷ es) = ground (arith, filter-kept_pending l now shed es)

-- Pruning keeps every event that is not acked yet, in order, and what it removes was acked.
pub prune_outbox_keeps_pending :
    (l : Limits) (now : ℕ) (o : Outbox)
    → (filter is_pending (prune_outbox l now o).0.events ≡ filter is_pending o.events)
      × (filter is_pending (prune_outbox l now o).1 ≡ [])
unfolding prune_outbox
prune_outbox_keeps_pending l now o = (
  filter-kept_pending l now (shed_ids l o.events) o.events,
  dropped (shed_ids l o.events) o.events,
)
  where
    dropped :
        (shed : List ℕ) (es : List Event)
        → filter is_pending (filter (is_dropped l now shed) es) ≡ []
    dropped shed [] = refl
    dropped shed (e ∷ es) = ground (arith, dropped shed es)

pub filter-Ascending : (q : Event → Bool) (es : List Event) → Ascending es → Ascending (filter q es)
filter-Ascending q [] h = tt
filter-Ascending q (e ∷ es) h =
    ground
      (arith, filter-Ascending q es h.1, any-filter-false (λ x. leb x.event_id e.event_id) q es h.0)

-- A queue in order of its ids is sorted already.
insert_by_id_first :
    (e : Event) (es : List Event)
    → any (λ x. leb x.event_id e.event_id) es ≡ false
    → insert_by_id e es ≡ e ∷ es
insert_by_id_first e [] h = refl
insert_by_id_first e (x ∷ es) h = ground arith

sort_by_id-Ascending : (es : List Event) → Ascending es → sort_by_id es ≡ es
unfolding sort_by_id
sort_by_id-Ascending [] h = refl
sort_by_id-Ascending (e ∷ es) h = rw (sort_by_id-Ascending es h.1) (insert_by_id_first e es h.0)

abbrev ids : List Event → List ℕ
ids = map (λ e. e.event_id)

-- Of the events whose ids are listed, all stand in the list.
count_listed :
    (n : ℕ) (ns : List ℕ) (es : List Event)
    → n ≤ length es
    → ((m : ℕ) → has_id m (ids (take n es)) ≡ true → has_id m ns ≡ true)
    → n ≤ count (λ e. has_id e.event_id ns) es
count_listed zero ns es h sub = omega arith
count_listed (suc n) ns [] h sub = absurd (omega arith)
count_listed (suc n) ns (e ∷ es) h sub =
    let rest = count_listed n ns es (omega arith) (λ m p. sub m (ground arith)) in
    let first : has_id e.event_id ns ≡ true = sub e.event_id (ground arith) in
    ground (arith, rest, first)

count_dropped :
    (l : Limits) (now : ℕ) (shed : List ℕ) (es : List Event)
    → count (λ e. has_id e.event_id shed) (filter is_acked es)
      ≤ length (filter (is_dropped l now shed) es)
count_dropped l now shed [] = omega arith
count_dropped l now shed (e ∷ es) = ground (arith, count_dropped l now shed es)

acked_or_pending :
    (es : List Event) → length es ≡ length (filter is_acked es) + length (filter is_pending es)
acked_or_pending es = length-filter-not is_acked es

abbrev overflow : Limits → Outbox → ℕ
overflow l o = length o.events - l.hard_cap

-- At least `n` events go if the queue is `n` over the cap and `n` of its events are acked.
prune_removes :
    (l : Limits) (now : ℕ) (o : Outbox)
    → Ascending o.events
    → overflow l o ≤ length (filter is_acked o.events)
    → overflow l o ≤ length (filter (is_dropped l now (shed_ids l o.events)) o.events)
unfolding shed_ids
prune_removes l now o asc enough =
    let acked = filter is_acked o.events in
    let listed =
      count_listed (overflow l o) (ids (take (overflow l o) acked)) acked enough (λ m p. p) in
    rw (sort_by_id-Ascending acked (filter-Ascending is_acked o.events asc))
      (omega (arith, listed, count_dropped l now (ids (take (overflow l o) acked)) o.events))

-- While the events that wait to be relayed are no more than the hard cap, pruning brings a queue in
-- order of its ids down to the hard cap, whatever the age of its events.
pub prune_outbox_bounded :
    (l : Limits) (now : ℕ) (o : Outbox)
    → Ascending o.events
    → length (filter is_pending o.events) ≤ l.hard_cap
    → length (prune_outbox l now o).0.events ≤ l.hard_cap
unfolding prune_outbox
prune_outbox_bounded l now o asc few =
    let gone = is_dropped l now (shed_ids l o.events) in
    let parts = acked_or_pending o.events in
    omega (arith, prune_removes l now o asc (omega (arith, parts)), length-filter-not gone o.events)
