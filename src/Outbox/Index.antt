-- ===== src/Outbox/Index.antt =====
-- About the dedupe index `_outboxKeys` and the queue, in apps/api/src/db/store.js.
use volt_hub_csms.Prelude.{
  ℕ, ◌+◌, ◌≡◌, refl, Bool, false, not, ◌&&◌, List, [], ◌∷◌, arith, ◌==◌, Bool-cases, inl, inr,
}
use volt_hub_csms.Prelude.{leb, ltb, sym, ◌∙◌}
use volt_hub_csms.Prelude.Lists.{
  push, filter, any, length, length-append, any-append, any-filter-false, length-filter-not,
}
use volt_hub_csms.State.{Outbox, Event, Payload, DedupeKey, key_eq}
use volt_hub_csms.Outbox.{
  Limits, has_key, delete_key, delete_keys, is_dropped, shed_ids, prune_outbox, prune_outbox_if_due,
  emit_outbox, enqueue, fresh_event,
}

abbrev pub holds_key : DedupeKey → Event → Bool
holds_key k e = e.dedupe_key == k

-- No two events of a queue have the same dedupe key.
abbrev pub DistinctKeys : List Event → Type 0
DistinctKeys [] = Unit
DistinctKeys (e ∷ es) = (any (holds_key e.dedupe_key) es ≡ false) × DistinctKeys es

-- The index holds exactly the keys of the queue, the keys are distinct, and the counters account for
-- the length of the queue.
pub record IsIndexed (o : Outbox) : Type 0 where
  pub agrees : (k : DedupeKey) → has_key k o.keys ≡ any (holds_key k) o.events
  pub distinct : DistinctKeys o.events
  pub accounted : o.emitted ≡ o.pruned + length o.events

pub filter-DistinctKeys :
    (q : Event → Bool) (es : List Event) → DistinctKeys es → DistinctKeys (filter q es)
filter-DistinctKeys q [] h = tt
filter-DistinctKeys q (e ∷ es) h =
    ground (arith, filter-DistinctKeys q es h.1, any-filter-false (holds_key e.dedupe_key) q es h.0)

push-DistinctKeys :
    (e : Event) (es : List Event)
    → any (holds_key e.dedupe_key) es ≡ false
    → DistinctKeys es
    → DistinctKeys (push e es)
push-DistinctKeys e [] h d = (refl, tt)
push-DistinctKeys e (x ∷ es) h d = ground (
  arith,
  push-DistinctKeys e es,
  any-append (holds_key x.dedupe_key) es (e ∷ []),
  key_eq.same_iff e.dedupe_key x.dedupe_key,
  key_eq.same_iff x.dedupe_key e.dedupe_key,
)

has_key-delete_key :
    (j k : DedupeKey) (ks : List DedupeKey)
    → has_key k (delete_key j ks) ≡ (has_key k ks && not (j == k))
has_key-delete_key j k [] = refl
has_key-delete_key j k (i ∷ ks) = ground (
  arith,
  has_key-delete_key j k ks,
  key_eq.same_iff i j,
  key_eq.same_iff i k,
  key_eq.same_iff j k,
)

has_key-delete_keys :
    (k : DedupeKey) (es : List Event) (ks : List DedupeKey)
    → has_key k (delete_keys es ks) ≡ (has_key k ks && not (any (holds_key k) es))
has_key-delete_keys k [] ks = ground arith
has_key-delete_keys k (e ∷ es) ks = ground (
  arith,
  has_key-delete_keys k es (delete_key e.dedupe_key ks),
  has_key-delete_key e.dedupe_key k ks,
)

-- With distinct keys, a key is kept exactly if the event that has it is kept.
any-filter-not :
    (q : Event → Bool) (k : DedupeKey) (es : List Event)
    → DistinctKeys es
    → any (holds_key k) (filter (λ e. not (q e)) es)
      ≡ (any (holds_key k) es && not (any (holds_key k) (filter q es)))
any-filter-not q k [] d = refl
any-filter-not q k (e ∷ es) d = elim (Bool-cases (e.dedupe_key == k)) [
  | inl same ↦
      let gone : any (holds_key k) es ≡ false =
        rw ((key_eq.same_iff e.dedupe_key k).0 same) at d.0 in
      ground (
        arith,
        any-filter-false (holds_key k) q es gone,
        any-filter-false (holds_key k) (λ x. not (q x)) es gone,
      )
  | inr other ↦ ground (arith, any-filter-not q k es d.1)
]

module _ (l : Limits) where
  pub prune_outbox-IsIndexed :
      (now : ℕ) (o : Outbox) → IsIndexed o → IsIndexed (prune_outbox l now o).0
  unfolding prune_outbox
  prune_outbox-IsIndexed now o v =
      let gone = is_dropped l now (shed_ids l o.events) in
      record {
        agrees = λ k. ground (
          arith,
          v.agrees k,
          has_key-delete_keys k (filter gone o.events) o.keys,
          any-filter-not gone k o.events v.distinct,
        );
        distinct = filter-DistinctKeys (λ e. not (gone e)) o.events v.distinct;
        accounted = omega (arith, v.accounted, length-filter-not gone o.events);
      }

  pub prune_outbox_if_due-IsIndexed :
      (now : ℕ) (o : Outbox) → IsIndexed o → IsIndexed (prune_outbox_if_due l now o).0
  unfolding prune_outbox_if_due
  prune_outbox_if_due-IsIndexed now o v =
      elim (Bool-cases (leb (length o.events) l.hard_cap && ltb now o.next_prune_at)) [
        | inl early ↦ rw early v
        | inr due ↦ rw due (
            prune_outbox-IsIndexed now (record o { next_prune_at = now + l.prune_interval_ms })
              (record { agrees = v.agrees; distinct = v.distinct; accounted = v.accounted }))
      ]

  enqueue-IsIndexed :
      (now : ℕ) (k : DedupeKey) (payload : Payload) (o : Outbox)
      → has_key k o.keys ≡ false
      → IsIndexed o
      → IsIndexed (enqueue now k payload o)
  unfolding enqueue
  enqueue-IsIndexed now k payload o new v = record {
    agrees = λ j. ground (
      arith,
      v.agrees j,
      any-append (λ i. i == j) o.keys (k ∷ []),
      any-append (holds_key j) o.events (fresh_event now k payload o ∷ []),
    );
    distinct =
        push-DistinctKeys (fresh_event now k payload o) o.events (sym (v.agrees k) ∙ new)
          v.distinct;
    accounted =
        omega (arith, v.accounted, length-append o.events (fresh_event now k payload o ∷ []));
  }

  -- Emitting an event keeps the index, the distinctness of the keys and the counters right, whether the
  -- key is new, is known, or the queue is pruned on the way.
  pub emit_outbox-IsIndexed :
      (now : ℕ) (k : DedupeKey) (payload : Payload) (o : Outbox)
      → IsIndexed o
      → IsIndexed (emit_outbox l now k payload o)
  unfolding emit_outbox enqueue
  emit_outbox-IsIndexed now k payload o v = elim (Bool-cases (has_key k o.keys)) [
    | inl known ↦ rw known v
    | inr new ↦ rw new (
        let w = enqueue-IsIndexed now k payload o new v in
        ground (arith, w, prune_outbox_if_due-IsIndexed now (enqueue now k payload o) w))
  ]
