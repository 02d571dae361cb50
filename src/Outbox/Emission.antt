-- ===== src/Outbox/Emission.antt =====
-- About `emitOutbox` of apps/api/src/db/store.js.
use volt_hub_csms.Prelude.{
  ℕ, suc, ◌+◌, ◌<◌, ◌≡◌, refl, ◌∙◌, true, false, not, List, [], ◌∷◌, arith, nat_eq, leb, ltb,
  if◌then◌else◌, Bool-cases, inl, inr,
}
use volt_hub_csms.Prelude.Lists.{push, filter, any, filter-append, any-append, any-filter-false}
use volt_hub_csms.State.{Outbox, Event, Payload, DedupeKey, key_eq}
use volt_hub_csms.Outbox.{
  Limits, is_pending, has_key, is_dropped, shed_ids, prune_outbox, prune_outbox_if_due, emit_outbox,
  enqueue, fresh_event,
}
use volt_hub_csms.Outbox.Index.{IsIndexed, holds_key, emit_outbox-IsIndexed}
use volt_hub_csms.Outbox.Retention.{Ascending, prune_outbox_keeps_pending, filter-Ascending}

abbrev pub waiting : List Event → List Event
waiting = filter is_pending

module _ (l : Limits) (now : ℕ) where
  pub prune_if_due_keeps :
      (o : Outbox) → waiting (prune_outbox_if_due l now o).0.events ≡ waiting o.events
  unfolding prune_outbox_if_due
  prune_if_due_keeps o = ground (
    arith,
    prune_outbox_keeps_pending l now (record o { next_prune_at = now + l.prune_interval_ms }),
  )

  -- Emitting an event with a new key puts it behind the events that wait, and loses none of them; with
  -- a known key it changes nothing.
  pub waiting-emit_outbox :
      (k : DedupeKey) (payload : Payload) (o : Outbox)
      → waiting (emit_outbox l now k payload o).events ≡ (
          if has_key k o.keys
          then waiting o.events
          else push (fresh_event now k payload o) (waiting o.events))
  unfolding emit_outbox enqueue
  waiting-emit_outbox k payload o = ground (
    arith,
    prune_if_due_keeps (enqueue now k payload o),
    filter-append is_pending o.events (fresh_event now k payload o ∷ []),
  )

  any-waiting :
      (k : DedupeKey) (es : List Event)
      → any (holds_key k) (waiting es) ≡ true
      → any (holds_key k) es ≡ true
  any-waiting k [] h = h
  any-waiting k (e ∷ es) h = ground (arith, any-waiting k es)

  emit_outbox-has_key :
      (k : DedupeKey) (payload : Payload) (o : Outbox)
      → IsIndexed o
      → has_key k (emit_outbox l now k payload o).keys ≡ true
  emit_outbox-has_key k payload o v = elim (Bool-cases (has_key k o.keys)) [
    | inl known ↦ unfold emit_outbox in (rw known known)
    | inr new ↦
        let es = (emit_outbox l now k payload o).events in
        let last : any (holds_key k) (waiting es) ≡ true = ground (
          arith,
          waiting-emit_outbox k payload o,
          any-append (holds_key k) (waiting o.events) (fresh_event now k payload o ∷ []),
          key_eq.same_iff k k,
        ) in
        (emit_outbox-IsIndexed l now k payload o v).agrees k ∙ any-waiting k es last
  ]

  -- In a queue whose dedupe index is right, an event is queued once: a second emission with the
  -- same key, at any later time and with any payload, changes nothing, also if the first one pruned
  -- the queue.
  pub emit_outbox_twice :
      (later : ℕ) (k : DedupeKey) (payload other : Payload) (o : Outbox)
      → IsIndexed o
      → emit_outbox l later k other (emit_outbox l now k payload o) ≡ emit_outbox l now k payload o
  emit_outbox_twice later k payload other o v =
      let known = emit_outbox-has_key k payload o v in unknown_lem known
    where
      unknown_lem : {o' : Outbox} → has_key k o'.keys ≡ true → emit_outbox l later k other o' ≡ o'
      unknown_lem h = unfold emit_outbox in (rw h)

-- Ids rise along the queue and none is above the sequence.
pub record IsOrdered (o : Outbox) : Type 0 where
  pub ascending : Ascending o.events
  pub below : any (λ e. ltb o.seq e.event_id) o.events ≡ false

push-Ascending :
    (n : ℕ) (e : Event) (es : List Event)
    → any (λ x. ltb n x.event_id) es ≡ false
    → n < e.event_id
    → Ascending es
    → Ascending (push e es)
push-Ascending n e [] b h asc = (refl, tt)
push-Ascending n e (x ∷ es) b h asc =
    ground (arith, push-Ascending n e es, any-append (λ y. leb y.event_id x.event_id) es (e ∷ []))

any-ltb_mono :
    (n : ℕ) (es : List Event)
    → any (λ x. ltb n x.event_id) es ≡ false
    → any (λ x. ltb (suc n) x.event_id) es ≡ false
any-ltb_mono n [] h = refl
any-ltb_mono n (x ∷ es) h = ground (arith, any-ltb_mono n es)

prune_if_due-IsOrdered :
    (l : Limits) (now : ℕ) (o : Outbox) → IsOrdered o → IsOrdered (prune_outbox_if_due l now o).0
unfolding prune_outbox_if_due prune_outbox
prune_if_due-IsOrdered l now o v =
    let kept = λ (e : Event). not (is_dropped l now (shed_ids l o.events) e) in
    ground (
      arith,
      filter-Ascending kept o.events v.ascending,
      any-filter-false (λ e. ltb o.seq e.event_id) kept o.events v.below,
    )

-- Emitting keeps the ids rising along the queue, which is what the pruning bound asks for.
pub emit_outbox-IsOrdered :
    (l : Limits) (now : ℕ) (k : DedupeKey) (payload : Payload) (o : Outbox)
    → IsOrdered o
    → IsOrdered (emit_outbox l now k payload o)
unfolding emit_outbox enqueue
emit_outbox-IsOrdered l now k payload o v =
    let e = fresh_event now k payload o in
    let w : IsOrdered (enqueue now k payload o) = record {
      ascending = push-Ascending o.seq e o.events v.below (omega arith) v.ascending;
      below = ground (
        arith,
        any-ltb_mono o.seq o.events v.below,
        any-append (λ x. ltb (suc o.seq) x.event_id) o.events (e ∷ []),
      );
    } in
    ground (arith, w, prune_if_due-IsOrdered l now (enqueue now k payload o) w)
