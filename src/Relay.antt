-- ===== src/Relay.antt =====
-- The relay of the outbox: `relayOnce` of apps/worker/src/index.js in its local mode, and the routes that it
-- calls in apps/api/src/routes.js, `/internal/outbox` and `/internal/outbox/ack`. The mirror file is a list of
-- its lines; its keys stand for the set of keys that the worker keeps beside it
-- (`loadSeen`).
pub mod Arrivals
pub mod Delivery
pub mod Mirror
use volt_hub_csms.Prelude.{
  ℕ, zero, suc, ◌+◌, Bool, true, false, not, ◌&&◌, ◌||◌, List, [], ◌∷◌, ◌++◌, map, Option, none,
  some, ltb, ◌==◌, nat_eq, if◌then◌else◌,
}
use volt_hub_csms.Prelude.Lists.{filter, take, length, any}
use volt_hub_csms.State.{Outbox, Event, Payload, DedupeKey, key_eq}
use volt_hub_csms.Outbox.{Limits, has_key, has_id, is_pending, prune_outbox_if_due}

-- A line of the mirror: the key and the payload, whose kind is its constructor.
pub record Line : Type 0 where
  pub dedupe_key : DedupeKey
  pub payload : Payload

-- `loadSeen`
abbrev pub seen_keys : List Line → List DedupeKey
seen_keys = map (λ x. x.dedupe_key)

-- GET /internal/outbox: at most `limit` of the events that wait, and how many wait.
unfoldable pub poll : ℕ → Outbox → List Event × ℕ
poll limit o = let pending = filter is_pending o.events in (take limit pending, length pending)

abbrev pub is_named : List ℕ → List DedupeKey → Event → Bool
is_named ids keys e = is_pending e && (has_id e.event_id ids || has_key e.dedupe_key keys)

abbrev pub ack_event : ℕ → List ℕ → List DedupeKey → Event → Event
ack_event now ids keys e = if is_named ids keys e then record e { processed_at = some now } else e

-- POST /internal/outbox/ack
unfoldable pub ack : Limits → ℕ → List ℕ → List DedupeKey → Outbox → Outbox
ack l now ids keys o =
    (prune_outbox_if_due l now (record o { events = map (ack_event now ids keys) o.events })).0

-- `appendFileSync` of the events whose key the mirror does not have.
unfoldable pub append_fresh : List Event → List Line → List Line
append_fresh es lines =
    lines
    ++ map (λ e. record { dedupe_key = e.dedupe_key; payload = e.payload })
        (filter (λ e. not (has_key e.dedupe_key (seen_keys lines))) es)

-- Where the worker, or its connection, may stop.
pub data Stop : Type 0 where
  before_append before_ack never : Stop

-- `relayOnce`, stopped or not; with nothing to relay it does not acknowledge.
unfoldable pub relay_batch :
    Limits → ℕ → Stop → List Event → List Line × Outbox → List Line × Outbox
relay_batch l now stop [] w = w
relay_batch l now before_append (e ∷ es) w = w
relay_batch l now before_ack (e ∷ es) w = (append_fresh (e ∷ es) w.0, w.1)
relay_batch l now never (e ∷ es) w = (
  append_fresh (e ∷ es) w.0,
  ack l now (map (λ x. x.event_id) (e ∷ es)) (map (λ x. x.dedupe_key) (e ∷ es)) w.1,
)

unfoldable pub relay_once : Limits → ℕ → ℕ → Stop → List Line × Outbox → List Line × Outbox
relay_once l limit now stop w = relay_batch l now stop (poll limit w.1).0 w

-- Cycles of the worker, each with its time and whether it was stopped.
unfoldable pub relay_cycles : Limits → ℕ → List (ℕ × Stop) → List Line × Outbox → List Line × Outbox
relay_cycles l limit [] w = w
relay_cycles l limit ((now, stop) ∷ rest) w =
    relay_cycles l limit rest (relay_once l limit now stop w)
