-- ===== src/Relay/Delivery.antt =====
-- About the backlog of the relay: `relayOnce` of apps/worker/src/index.js.
use volt_hub_csms.Prelude.{
  ℕ, zero, suc, ◌+◌, ◌-◌, ◌*◌, ◌≤◌, ◌≡◌, refl, ap, subst, true, not, List, [], ◌∷◌, ◌++◌, map,
  arith, nat_eq,
}
use volt_hub_csms.Prelude.Lists.{filter, take, length}
use volt_hub_csms.State.{Outbox, Event, DedupeKey, key_eq}
use volt_hub_csms.Outbox.{Limits, has_id}
use volt_hub_csms.Outbox.Emission.{waiting, prune_if_due_keeps}
use volt_hub_csms.Relay.{
  Line, poll, is_named, ack_event, ack, Stop, before_append, before_ack, never, relay_batch,
  relay_once, relay_cycles,
}

-- How many events wait.
abbrev pub backlog : Outbox → ℕ
backlog o = length (waiting o.events)

pub waiting-ack :
    (now : ℕ) (ids : List ℕ) (keys : List DedupeKey) (es : List Event)
    → waiting (map (ack_event now ids keys) es)
      ≡ filter (λ e. not (is_named ids keys e)) (waiting es)
waiting-ack now ids keys [] = refl
waiting-ack now ids keys (e ∷ es) = ground (arith, waiting-ack now ids keys es)

has_id_more : (n m : ℕ) (ns : List ℕ) → has_id n ns ≡ true → has_id n (m ∷ ns) ≡ true
has_id_more n m ns h = ground arith

-- Of the events of a batch none is left by a test that passes over those whose id the batch has.
left_of : List ℕ → List Event → List Event
left_of ids = filter (λ e. not (has_id e.event_id ids))

length-left_of-append :
    (ids : List ℕ) (xs ys : List Event)
    → length (left_of ids (xs ++ ys)) ≡ length (left_of ids xs) + length (left_of ids ys)
unfolding left_of
length-left_of-append ids [] ys = omega arith
length-left_of-append ids (x ∷ xs) ys = ground (arith, length-left_of-append ids xs ys)

length-left_of-le : (ids : List ℕ) (xs : List Event) → length (left_of ids xs) ≤ length xs
unfolding left_of
length-left_of-le ids [] = omega arith
length-left_of-le ids (x ∷ xs) = ground (arith, length-left_of-le ids xs)

more_ids :
    (m : ℕ) (ids : List ℕ) (xs : List Event)
    → length (left_of (m ∷ ids) xs) ≤ length (left_of ids xs)
unfolding left_of
more_ids m ids [] = omega arith
more_ids m ids (x ∷ xs) = ground (arith, more_ids m ids xs)

left_of_self : (xs : List Event) → length (left_of (map (λ x. x.event_id) xs) xs) ≡ 0
unfolding left_of
left_of_self [] = refl
left_of_self (x ∷ xs) = ground (
  arith,
  left_of_self xs,
  more_ids x.event_id (map (λ y. y.event_id) xs) xs,
  nat_eq.same_iff x.event_id x.event_id,
)

-- After a test that passes over what `take` took, no more is left than `take` left.
left_of-take :
    (ids : List ℕ) (n : ℕ) (xs : List Event)
    → length (left_of ids (take n xs)) ≡ 0
    → length (left_of ids xs) ≤ length xs - n
left_of-take ids n [] h = omega (arith, length-left_of-le ids [])
left_of-take ids zero (x ∷ xs) h = omega (arith, length-left_of-le ids (x ∷ xs))
left_of-take ids (suc n) (x ∷ xs) h = one_more ids n x xs h (left_of-take ids n xs)
  where
    one_more :
        (ids : List ℕ) (n : ℕ) (x : Event) (xs : List Event)
        → length (left_of ids (x ∷ take n xs)) ≡ 0
        → (length (left_of ids (take n xs)) ≡ 0 → length (left_of ids xs) ≤ length xs - n)
        → length (left_of ids (x ∷ xs)) ≤ length (x ∷ xs) - suc n
    one_more ids n x xs h ih = unfold left_of in (ground (arith, h, ih))

unnamed-left_of :
    (ids : List ℕ) (keys : List DedupeKey) (es : List Event)
    → length (filter (λ e. not (is_named ids keys e)) (waiting es))
      ≤ length (left_of ids (waiting es))
unfolding left_of
unnamed-left_of ids keys [] = omega arith
unnamed-left_of ids keys (e ∷ es) = ground (arith, unnamed-left_of ids keys es)

module _ (l : Limits) (limit : ℕ) where
  backlog-ack :
      (now : ℕ) (keys : List DedupeKey) (o : Outbox)
      → backlog (ack l now (map (λ x. x.event_id) (take limit (waiting o.events))) keys o)
        ≤ backlog o - limit
  unfolding ack
  backlog-ack now keys o =
      let batch = take limit (waiting o.events) in
      let ids = map (λ x. x.event_id) batch in
      let acked : Outbox = record o { events = map (ack_event now ids keys) o.events } in
      omega (
        arith,
        ap length (prune_if_due_keeps l now acked),
        ap length (waiting-ack now ids keys o.events),
        unnamed-left_of ids keys o.events,
        left_of-take ids limit (waiting o.events) (left_of_self batch),
      )

  -- How many events a cycle may take off the backlog.
  abbrev batch_size : Stop → ℕ
  batch_size never = limit
  batch_size _ = 0

  take_nil : (n : ℕ) (xs : List Event) → take n xs ≡ [] → length xs ≤ length xs - n
  take_nil n [] h = omega arith
  take_nil zero (x ∷ xs) h = omega arith
  take_nil (suc n) (x ∷ xs) h = ground (arith, h)

  batch_backlog :
      (now : ℕ) (stop : Stop) (es : List Event) (lines : List Line) (o : Outbox)
      → take limit (waiting o.events) ≡ es
      → backlog (relay_batch l now stop es (lines, o)).1 ≤ backlog o - batch_size stop
  unfolding relay_batch
  batch_backlog now before_append [] lines o h = omega arith
  batch_backlog now before_ack [] lines o h = omega arith
  batch_backlog now never [] lines o h = take_nil limit (waiting o.events) h
  batch_backlog now before_append (e ∷ es) lines o h = omega arith
  batch_backlog now before_ack (e ∷ es) lines o h = omega arith
  batch_backlog now never (e ∷ es) lines o h =
      subst
        (λ b.
          backlog (ack l now (map (λ x. x.event_id) b) (map (λ x. x.dedupe_key) (e ∷ es)) o)
          ≤ backlog o - limit)
        h (backlog-ack now (map (λ x. x.dedupe_key) (e ∷ es)) o)

  once_backlog :
      (now : ℕ) (stop : Stop) (w : List Line × Outbox)
      → backlog (relay_once l limit now stop w).1 ≤ backlog w.1 - batch_size stop
  unfolding relay_once poll
  once_backlog now stop (lines, o) =
      batch_backlog now stop (take limit (waiting o.events)) lines o refl

  -- The cycles that are not stopped.
  abbrev pub completed : List (ℕ × Stop) → ℕ
  completed [] = 0
  completed ((now, never) ∷ rest) = suc (completed rest)
  completed ((now, _) ∷ rest) = completed rest

  batch_size-completed :
      (now : ℕ) (stop : Stop) (rest : List (ℕ × Stop))
      → completed ((now, stop) ∷ rest) * limit ≡ batch_size stop + completed rest * limit
  batch_size-completed now before_append rest = omega arith
  batch_size-completed now before_ack rest = omega arith
  batch_size-completed now never rest = grind arith

  -- After any cycles of the relay, the backlog is at most what it was less a batch for each cycle that was
  -- not stopped: a cycle that stopped, before it wrote or after, adds nothing to it.
  pub relay_cycles_drain :
      (cycles : List (ℕ × Stop)) (w : List Line × Outbox)
      → backlog (relay_cycles l limit cycles w).1 ≤ backlog w.1 - completed cycles * limit
  unfolding relay_cycles
  relay_cycles_drain [] w = omega arith
  relay_cycles_drain ((now, stop) ∷ rest) w = omega (
    arith,
    relay_cycles_drain rest (relay_once l limit now stop w),
    once_backlog now stop w,
    batch_size-completed now stop rest,
  )
