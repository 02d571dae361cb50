-- ===== src/Relay/Arrivals.antt =====
-- About the events that the relay has taken and the lines of the mirror: `relayOnce` of apps/worker/src/index.js.
use volt_hub_csms.Prelude.{
  ℕ, zero, suc, Bool, ◌≡◌, refl, ap, subst, ◌∙◌, ◌⊎◌, true, false, not, List, [], ◌∷◌, map, arith,
  ◌==◌, nat_eq, Bool-cases, inl, inr, leb, ltb, ◌&&◌, ◌||◌,
}
use volt_hub_csms.Prelude.Lists.{filter, take, any, any-append, length}
use volt_hub_csms.State.{Outbox, Event, DedupeKey, key_eq}
use volt_hub_csms.Schedule.Sorting.{All}
use volt_hub_csms.Outbox.{
  Limits, has_key, has_id, is_pending, prune_outbox, prune_outbox_if_due, is_dropped, shed_ids,
}
use volt_hub_csms.Outbox.Index.{holds_key}
use volt_hub_csms.Outbox.Emission.{waiting, prune_if_due_keeps}
use volt_hub_csms.Relay.{
  Line, seen_keys, poll, is_named, ack_event, ack, append_fresh, Stop, before_append, before_ack,
  never, relay_batch, relay_once, relay_cycles,
}
use volt_hub_csms.Relay.Delivery.{waiting-ack}
use volt_hub_csms.Relay.Mirror.{keys_of, fresh, seen-append}

abbrev ids_of : List Event → List ℕ
ids_of = map (λ e. e.event_id)

-- No id stands twice.
abbrev pub DistinctIds : List Event → Type 0
DistinctIds [] = Unit
DistinctIds (e ∷ es) = (has_id e.event_id (ids_of es) ≡ false) × DistinctIds es

-- An event that is named by its id is named by its key too.
abbrev IsNamedTwice : List ℕ → List DedupeKey → Event → Type 0
IsNamedTwice ids keys e = has_id e.event_id ids ≡ true → has_key e.dedupe_key keys ≡ true

more_names :
    (x : Event) (ids : List ℕ) (keys : List DedupeKey) (es : List Event)
    → has_id x.event_id (ids_of es) ≡ false
    → All (IsNamedTwice ids keys) es
    → All (IsNamedTwice (x.event_id ∷ ids) (x.dedupe_key ∷ keys)) es
more_names x ids keys [] a h = tt
more_names x ids keys (e ∷ es) a h = (
  λ k. ground (
    arith,
    a,
    k,
    h.0,
    nat_eq.same_iff x.event_id e.event_id,
    nat_eq.same_iff e.event_id x.event_id,
  ),
  more_names x ids keys es (ground (arith, a)) h.1,
)

no_names : (es : List Event) → All (IsNamedTwice [] []) es
no_names [] = tt
no_names (e ∷ es) = (λ k. k, no_names es)

batch-IsNamedTwice :
    (n : ℕ) (es : List Event)
    → DistinctIds es
    → All (IsNamedTwice (ids_of (take n es)) (keys_of (take n es))) es
batch-IsNamedTwice n [] d = tt
batch-IsNamedTwice zero (e ∷ es) d = no_names (e ∷ es)
batch-IsNamedTwice (suc n) (e ∷ es) d = (
  λ k. ground (arith, key_eq.same_iff e.dedupe_key e.dedupe_key),
  more_names e (ids_of (take n es)) (keys_of (take n es)) es d.0 (batch-IsNamedTwice n es d.1),
)

-- An event is still there when those that are named are taken out, or its key is named.
unnamed_or_key :
    (k : DedupeKey) (ids : List ℕ) (keys : List DedupeKey) (es : List Event)
    → All (IsNamedTwice ids keys) es
    → any (holds_key k) es ≡ true
    → (any (holds_key k) (filter (λ e. not (is_named ids keys e)) es) ≡ true)
      ⊎ (has_key k keys ≡ true)
unnamed_or_key k ids keys [] h a = absurd cc
unnamed_or_key k ids keys (e ∷ es) h a = elim (Bool-cases (holds_key k e)) [
  | inl it ↦
      let same : e.dedupe_key ≡ k = (key_eq.same_iff e.dedupe_key k).0 it in
      elim (Bool-cases (is_named ids keys e)) [
        | inl named ↦ inr (subst (λ j. has_key j keys ≡ true) same (ground (arith, named, h.0)))
        | inr other ↦ inl (ground (arith, other, it))
      ]
  | inr another ↦ elim (unnamed_or_key k ids keys es h.1 (ground (arith, a, another))) [
    | inl waits ↦ inl (ground (arith, waits))
    | inr named ↦ inr named
  ]
]

filter-has_id :
    (n : ℕ) (p : Event → Bool) (es : List Event)
    → has_id n (ids_of es) ≡ false
    → has_id n (ids_of (filter p es)) ≡ false
filter-has_id n p [] h = h
filter-has_id n p (e ∷ es) h = ground (arith, filter-has_id n p es)

filter-DistinctIds :
    (p : Event → Bool) (es : List Event) → DistinctIds es → DistinctIds (filter p es)
filter-DistinctIds p [] d = tt
filter-DistinctIds p (e ∷ es) d = elim (Bool-cases (p e)) [
  | inl kept ↦ rw kept (filter-has_id e.event_id p es d.0, filter-DistinctIds p es d.1)
  | inr gone ↦ rw gone (filter-DistinctIds p es d.1)
]

ids_of-ack_event :
    (now : ℕ) (ids : List ℕ) (keys : List DedupeKey) (es : List Event)
    → ids_of (map (ack_event now ids keys) es) ≡ ids_of es
ids_of-ack_event now ids keys [] = refl
ids_of-ack_event now ids keys (e ∷ es) = ground (arith, ids_of-ack_event now ids keys es)

map-DistinctIds :
    (now : ℕ) (ids : List ℕ) (keys : List DedupeKey) (es : List Event)
    → DistinctIds es
    → DistinctIds (map (ack_event now ids keys) es)
map-DistinctIds now ids keys [] d = tt
map-DistinctIds now ids keys (e ∷ es) d =
    (ground (arith, d.0, ids_of-ack_event now ids keys es), map-DistinctIds now ids keys es d.1)

-- The mirror keeps its keys, and gets those of a batch.
append_fresh-has_key :
    (k : DedupeKey) (es : List Event) (lines : List Line)
    → has_key k (seen_keys (append_fresh es lines))
      ≡ (has_key k (seen_keys lines) || has_key k (keys_of (fresh lines es)))
unfolding append_fresh
append_fresh-has_key k es lines =
    ap (has_key k) (seen-append lines (fresh lines es))
    ∙ any-append (λ j. j == k) (seen_keys lines) (keys_of (fresh lines es))

fresh-has_key :
    (k : DedupeKey) (lines : List Line) (es : List Event)
    → has_key k (seen_keys lines) ≡ false
    → has_key k (keys_of es) ≡ true
    → has_key k (keys_of (fresh lines es)) ≡ true
fresh-has_key k lines [] new h = h
fresh-has_key k lines (e ∷ es) new h = elim (Bool-cases (e.dedupe_key == k)) [
  | inl it ↦
      let same : e.dedupe_key ≡ k = (key_eq.same_iff e.dedupe_key k).0 it in
      let unseen : has_key e.dedupe_key (seen_keys lines) ≡ false =
        ap (λ j. has_key j (seen_keys lines)) same ∙ new in
      rw unseen (ground (arith, it))
  | inr another ↦
      let rest = fresh-has_key k lines es new (ground (arith, another, h)) in
      elim (Bool-cases (has_key e.dedupe_key (seen_keys lines))) [
        | inl seen ↦ rw seen rest
        | inr unseen ↦ rw unseen (ground (arith, rest))
      ]
]

module _ (l : Limits) (limit : ℕ) where
  -- The event with a key waits, or the mirror has a line with it.
  abbrev pub IsSafe : DedupeKey → List Line × Outbox → Type 0
  IsSafe k w = (any (holds_key k) (waiting w.1.events) ≡ true) ⊎ (has_key k (seen_keys w.0) ≡ true)

  prune-DistinctIds :
      (now : ℕ) (o : Outbox)
      → DistinctIds o.events
      → DistinctIds (prune_outbox_if_due l now o).0.events
  unfolding prune_outbox_if_due prune_outbox
  prune-DistinctIds now o d =
      elim (Bool-cases (leb (length o.events) l.hard_cap && ltb now o.next_prune_at)) [
        | inl early ↦ rw early d
        | inr due ↦
            rw due
              (filter-DistinctIds (λ e. not (is_dropped l now (shed_ids l o.events) e)) o.events d)
      ]

  ack-DistinctIds :
      (now : ℕ) (ids : List ℕ) (keys : List DedupeKey) (o : Outbox)
      → DistinctIds o.events
      → DistinctIds (ack l now ids keys o).events
  unfolding ack
  ack-DistinctIds now ids keys o d =
      prune-DistinctIds now (record o { events = map (ack_event now ids keys) o.events })
        (map-DistinctIds now ids keys o.events d)

  waiting-ack_batch :
      (now : ℕ) (ids : List ℕ) (keys : List DedupeKey) (o : Outbox)
      → waiting (ack l now ids keys o).events
        ≡ filter (λ e. not (is_named ids keys e)) (waiting o.events)
  unfolding ack
  waiting-ack_batch now ids keys o =
      prune_if_due_keeps l now (record o { events = map (ack_event now ids keys) o.events })
      ∙ waiting-ack now ids keys o.events

  append-IsSafe :
      (k : DedupeKey) (es : List Event) (lines : List Line) (o : Outbox)
      → IsSafe k (lines, o)
      → IsSafe k (append_fresh es lines, o)
  append-IsSafe k es lines o (inl waits) = inl waits
  append-IsSafe k es lines o (inr there) =
      inr (ground (arith, there, append_fresh-has_key k es lines))

  -- A cycle that is not stopped: an event that it acknowledges was in its batch.
  relayed-IsSafe :
      (now : ℕ) (k : DedupeKey) (lines : List Line) (o : Outbox)
      → DistinctIds o.events
      → IsSafe k (lines, o)
      → let batch = take limit (waiting o.events) in
        IsSafe k (append_fresh batch lines, ack l now (ids_of batch) (keys_of batch) o)
  relayed-IsSafe now k lines o d h =
      let batch = take limit (waiting o.events) in
      elim (Bool-cases (has_key k (seen_keys lines))) [
        | inl there ↦ inr (ground (arith, there, append_fresh-has_key k batch lines))
        | inr new ↦
            elim (unnamed_or_key k (ids_of batch) (keys_of batch) (waiting o.events)
              (batch-IsNamedTwice limit (waiting o.events)
                (filter-DistinctIds is_pending o.events d))
              (waits_if_new lines o new h)) [
                | inl waits ↦ inl (
                    ap (any (holds_key k)) (waiting-ack_batch now (ids_of batch) (keys_of batch) o)
                    ∙ waits)
                | inr named ↦ inr (
                    ground (
                      arith,
                      fresh-has_key k lines batch new named,
                      append_fresh-has_key k batch lines,
                    ))
              ]
      ]
    where
      waits_if_new :
          (lines : List Line) (o : Outbox)
          → has_key k (seen_keys lines) ≡ false
          → IsSafe k (lines, o)
          → any (holds_key k) (waiting o.events) ≡ true
      waits_if_new lines o new (inl waits) = waits
      waits_if_new lines o new (inr there) = absurd (ground (arith, new, there))

  batch-IsSafe :
      (now : ℕ) (stop : Stop) (k : DedupeKey) (es : List Event) (lines : List Line) (o : Outbox)
      → take limit (waiting o.events) ≡ es
      → DistinctIds o.events
      → IsSafe k (lines, o)
      → IsSafe k (relay_batch l now stop es (lines, o))
        × DistinctIds (relay_batch l now stop es (lines, o)).1.events
  unfolding relay_batch
  batch-IsSafe now stop k [] lines o b d h = (h, d)
  batch-IsSafe now before_append k (e ∷ es) lines o b d h = (h, d)
  batch-IsSafe now before_ack k (e ∷ es) lines o b d h = (append-IsSafe k (e ∷ es) lines o h, d)
  batch-IsSafe now never k (e ∷ es) lines o b d h = (
    subst (λ x. IsSafe k (append_fresh x lines, ack l now (ids_of x) (keys_of x) o)) b
        (relayed-IsSafe now k lines o d h),
    ack-DistinctIds now (ids_of (e ∷ es)) (keys_of (e ∷ es)) o d,
  )

  -- However many cycles the relay makes, and wherever each of them stops, no event is lost: where no two events of
  -- the queue have one id, an event that waits, or whose key the mirror has, waits or has its key in the mirror
  -- afterwards.
  pub relay_cycles-IsSafe :
      (cycles : List (ℕ × Stop)) (k : DedupeKey) (lines : List Line) (o : Outbox)
      → DistinctIds o.events
      → IsSafe k (lines, o)
      → IsSafe k (relay_cycles l limit cycles (lines, o))
  unfolding relay_cycles relay_once poll
  relay_cycles-IsSafe [] k lines o d h = h
  relay_cycles-IsSafe ((now, stop) ∷ rest) k lines o d h =
      let next = batch-IsSafe now stop k (take limit (waiting o.events)) lines o refl d h in
      let w = relay_once l limit now stop (lines, o) in
      relay_cycles-IsSafe rest k w.0 w.1 next.1 next.0
