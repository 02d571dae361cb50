-- ===== src/Tests/Relay.antt =====
-- The relay queue at concrete inputs.
use volt_hub_csms.Prelude.{ℕ, ◌≡◌, refl, [], ◌∷◌, none, some, nat_eq}
use volt_hub_csms.Prelude.Lists.{filter}
use volt_hub_csms.State.{
  Outbox, Event, Payload, connector_state, ConnectorStatus, Cause, meter_tick, key_eq, empty_outbox,
}
use volt_hub_csms.Outbox.{is_pending, prune_outbox, emit_outbox}
use volt_hub_csms.Outbox.Index.{IsIndexed, emit_outbox-IsIndexed}
use volt_hub_csms.Outbox.Retention.{prune_outbox_keeps_pending}
use volt_hub_csms.Outbox.Emission.{emit_outbox_twice}
use volt_hub_csms.Tests.Data.{limits, left_connector}

abbrev hold : Payload
hold =
    connector_state left_connector ConnectorStatus.available ConnectorStatus.reserved
      Cause.reservation (some 1)

abbrev acked : ℕ → Event
acked n = record {
  event_id = n;
  dedupe_key = meter_tick 1 n;
  payload = hold;
  created_at = 0;
  processed_at = some 10;
  quarantine_reason = none;
}

-- Six events, of which the fourth waits.
abbrev backlog : Outbox
backlog = record empty_outbox {
  events =
      acked 1
      ∷ acked 2
      ∷ acked 3
      ∷ (record (acked 4) { processed_at = none })
      ∷ acked 5
      ∷ acked 6
      ∷ [];
  emitted = 6;
  seq = 6;
}

empty-IsIndexed : IsIndexed empty_outbox
empty-IsIndexed = record { agrees = λ k. refl; distinct = tt; accounted = refl }

prune_outbox_keeps_pending_example :
    (filter is_pending (prune_outbox limits 20 backlog).0.events ≡ filter is_pending backlog.events)
    × (filter is_pending (prune_outbox limits 20 backlog).1 ≡ [])
prune_outbox_keeps_pending_example = prune_outbox_keeps_pending limits 20 backlog

emit_outbox-IsIndexed_example : IsIndexed (emit_outbox limits 20 (meter_tick 1 1) hold empty_outbox)
emit_outbox-IsIndexed_example =
    emit_outbox-IsIndexed limits 20 (meter_tick 1 1) hold empty_outbox empty-IsIndexed

emit_outbox_twice_example :
    emit_outbox limits 30
      (meter_tick 1 1)
      hold
      (emit_outbox limits 20 (meter_tick 1 1) hold empty_outbox)
    ≡ emit_outbox limits 20 (meter_tick 1 1) hold empty_outbox
emit_outbox_twice_example =
    emit_outbox_twice limits 20 30 (meter_tick 1 1) hold hold empty_outbox empty-IsIndexed
