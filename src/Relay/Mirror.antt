-- ===== src/Relay/Mirror.antt =====
-- About the keys of the mirror: `relayOnce` of apps/worker/src/index.js.
use volt_hub_csms.Prelude.{
  ℕ, zero, suc, ◌≡◌, refl, ap, ◌∙◌, false, not, List, [], ◌∷◌, ◌++◌, map, arith, ◌==◌, Bool-cases,
  inl, inr, leb, ltb, ◌&&◌,
}
use volt_hub_csms.Prelude.Lists.{filter, take, any, any-append, length}
use volt_hub_csms.State.{Outbox, Event, DedupeKey, key_eq}
use volt_hub_csms.Outbox.{
  Limits, has_key, is_pending, prune_outbox, prune_outbox_if_due, is_dropped, shed_ids,
}
use volt_hub_csms.Outbox.Index.{DistinctKeys, holds_key, filter-DistinctKeys}
use volt_hub_csms.Outbox.Emission.{waiting}
use volt_hub_csms.Relay.{
  Line, seen_keys, poll, ack_event, ack, append_fresh, Stop, before_append, before_ack, never,
  relay_batch, relay_once, relay_cycles,
}

-- No key stands twice.
abbrev pub Distinct : List DedupeKey → Type 0
Distinct [] = Unit
Distinct (k ∷ ks) = (has_key k ks ≡ false) × Distinct ks

-- None of the keys is among others.
abbrev Absent : List DedupeKey → List DedupeKey → Type 0
Absent old [] = Unit
Absent old (k ∷ ks) = (has_key k old ≡ false) × Absent old ks

Absent-head :
    (k : DedupeKey) (old ks : List DedupeKey)
    → Absent (k ∷ old) ks
    → (has_key k ks ≡ false) × Absent old ks
Absent-head k old [] h = (refl, tt)
Absent-head k old (j ∷ ks) h =
    ground (arith, Absent-head k old ks h.1, key_eq.same_iff k j, key_eq.same_iff j k)

Distinct-append :
    (old ks : List DedupeKey) → Distinct old → Distinct ks → Absent old ks → Distinct (old ++ ks)
Distinct-append [] ks d e a = e
Distinct-append (k ∷ old) ks d e a =
    let h = Absent-head k old ks a in
    (any-append (λ j. j == k) old ks ∙ ground (arith, d.0, h.0), Distinct-append old ks d.1 e h.1)

abbrev pub keys_of : List Event → List DedupeKey
keys_of = map (λ e. e.dedupe_key)

abbrev pub fresh : List Line → List Event → List Event
fresh lines = filter (λ e. not (has_key e.dedupe_key (seen_keys lines)))

fresh-Absent :
    (lines : List Line) (es : List Event) → Absent (seen_keys lines) (keys_of (fresh lines es))
fresh-Absent lines [] = tt
fresh-Absent lines (e ∷ es) = elim (Bool-cases (has_key e.dedupe_key (seen_keys lines))) [
  | inl known ↦ rw known (fresh-Absent lines es)
  | inr new ↦ rw new (new, fresh-Absent lines es)
]

pub has_key-keys_of :
    (k : DedupeKey) (es : List Event) → has_key k (keys_of es) ≡ any (holds_key k) es
has_key-keys_of k [] = refl
has_key-keys_of k (e ∷ es) = ground (arith, has_key-keys_of k es)

keys_of-Distinct : (es : List Event) → DistinctKeys es → Distinct (keys_of es)
keys_of-Distinct [] h = tt
keys_of-Distinct (e ∷ es) h = (has_key-keys_of e.dedupe_key es ∙ h.0, keys_of-Distinct es h.1)

pub seen-append :
    (lines : List Line) (es : List Event)
    → seen_keys (lines ++ map (λ e. record { dedupe_key = e.dedupe_key; payload = e.payload }) es)
      ≡ seen_keys lines ++ keys_of es
seen-append [] [] = refl
seen-append [] (e ∷ es) = ap (λ r. e.dedupe_key ∷ r) (seen-append [] es)
seen-append (x ∷ lines) es = ap (λ r. x.dedupe_key ∷ r) (seen-append lines es)

append_fresh-Distinct :
    (es : List Event) (lines : List Line)
    → DistinctKeys es
    → Distinct (seen_keys lines)
    → Distinct (seen_keys (append_fresh es lines))
unfolding append_fresh
append_fresh-Distinct es lines d h = rw (seen-append lines (fresh lines es)) (
    Distinct-append (seen_keys lines) (keys_of (fresh lines es)) h
      (keys_of-Distinct (fresh lines es) (filter-DistinctKeys _ es d)) (fresh-Absent lines es))

take-any :
    (n : ℕ) (k : DedupeKey) (es : List Event)
    → any (holds_key k) es ≡ false
    → any (holds_key k) (take n es) ≡ false
take-any n k [] h = h
take-any zero k (e ∷ es) h = refl
take-any (suc n) k (e ∷ es) h = ground (arith, take-any n k es)

take-DistinctKeys : (n : ℕ) (es : List Event) → DistinctKeys es → DistinctKeys (take n es)
take-DistinctKeys n [] h = tt
take-DistinctKeys zero (e ∷ es) h = tt
take-DistinctKeys (suc n) (e ∷ es) h = (take-any n e.dedupe_key es h.0, take-DistinctKeys n es h.1)

ack_event-any :
    (now : ℕ) (ids : List ℕ) (keys : List DedupeKey) (k : DedupeKey) (es : List Event)
    → any (holds_key k) (map (ack_event now ids keys) es) ≡ any (holds_key k) es
ack_event-any now ids keys k [] = refl
ack_event-any now ids keys k (e ∷ es) = ground (arith, ack_event-any now ids keys k es)

ack_event-key :
    (now : ℕ) (ids : List ℕ) (keys : List DedupeKey) (e : Event)
    → (ack_event now ids keys e).dedupe_key ≡ e.dedupe_key
ack_event-key now ids keys e = ground arith

map-DistinctKeys :
    (now : ℕ) (ids : List ℕ) (keys : List DedupeKey) (es : List Event)
    → DistinctKeys es
    → DistinctKeys (map (ack_event now ids keys) es)
map-DistinctKeys now ids keys [] h = tt
map-DistinctKeys now ids keys (e ∷ es) h = (
  rw (ack_event-key now ids keys e) (ack_event-any now ids keys e.dedupe_key es ∙ h.0),
  map-DistinctKeys now ids keys es h.1,
)

module _ (l : Limits) (limit : ℕ) where
  prune-DistinctKeys :
      (now : ℕ) (o : Outbox)
      → DistinctKeys o.events
      → DistinctKeys (prune_outbox_if_due l now o).0.events
  unfolding prune_outbox_if_due prune_outbox
  prune-DistinctKeys now o h =
      elim (Bool-cases (leb (length o.events) l.hard_cap && ltb now o.next_prune_at)) [
        | inl early ↦ rw early h
        | inr due ↦
            rw due
              (filter-DistinctKeys (λ e. not (is_dropped l now (shed_ids l o.events) e)) o.events h)
      ]

  ack-DistinctKeys :
      (now : ℕ) (ids : List ℕ) (keys : List DedupeKey) (o : Outbox)
      → DistinctKeys o.events
      → DistinctKeys (ack l now ids keys o).events
  unfolding ack
  ack-DistinctKeys now ids keys o h =
      prune-DistinctKeys now (record o { events = map (ack_event now ids keys) o.events })
        (map-DistinctKeys now ids keys o.events h)

  abbrev IsMirrored : List Line × Outbox → Type 0
  IsMirrored w = Distinct (seen_keys w.0) × DistinctKeys w.1.events

  batch-IsMirrored :
      (now : ℕ) (stop : Stop) (es : List Event) (w : List Line × Outbox)
      → DistinctKeys es
      → IsMirrored w
      → IsMirrored (relay_batch l now stop es w)
  unfolding relay_batch
  batch-IsMirrored now stop [] w d h = h
  batch-IsMirrored now before_append (e ∷ es) w d h = h
  batch-IsMirrored now before_ack (e ∷ es) w d h = (append_fresh-Distinct (e ∷ es) w.0 d h.0, h.1)
  batch-IsMirrored now never (e ∷ es) w d h = (
    append_fresh-Distinct (e ∷ es) w.0 d h.0,
    ack-DistinctKeys now (map (λ x. x.event_id) (e ∷ es)) (map (λ x. x.dedupe_key) (e ∷ es)) w.1
        h.1,
  )

  cycles-IsMirrored :
      (cycles : List (ℕ × Stop)) (w : List Line × Outbox)
      → IsMirrored w
      → IsMirrored (relay_cycles l limit cycles w)
  unfolding relay_cycles relay_once poll
  cycles-IsMirrored [] w h = h
  cycles-IsMirrored ((now, stop) ∷ rest) w h =
      cycles-IsMirrored rest (relay_once l limit now stop w) (
        batch-IsMirrored now stop (take limit (waiting w.1.events)) w
          (take-DistinctKeys limit (waiting w.1.events)
            (filter-DistinctKeys is_pending w.1.events h.1))
          h)

  -- However many cycles the relay makes, and wherever each of them stops, the mirror has no key twice if it had
  -- none and the queue has none.
  pub relay_cycles-Distinct :
      (cycles : List (ℕ × Stop)) (lines : List Line) (o : Outbox)
      → Distinct (seen_keys lines)
      → DistinctKeys o.events
      → Distinct (seen_keys (relay_cycles l limit cycles (lines, o)).0)
  relay_cycles-Distinct cycles lines o h d = (cycles-IsMirrored cycles (lines, o) (h, d)).0
