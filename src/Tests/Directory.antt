-- ===== src/Tests/Directory.antt =====
-- Registrations, the relay's mirror and the index of readings at concrete inputs.
use volt_hub_csms.Prelude.{
  ℕ, ◌-◌, ◌*◌, ◌≤◌, ◌≡◌, refl, List, [], ◌∷◌, none, some, arith, nat_eq, text_comparable, inl,
}
use volt_hub_csms.Prelude.Dict.{lookup}
use volt_hub_csms.Prelude.Decimal.{whole}
use volt_hub_csms.Prelude.Outcome.{ok}
use volt_hub_csms.State.{
  Outbox, Event, Role, Reading, empty_outbox, create_store, meter_tick, connector_state,
  ConnectorStatus, Cause, Payload, key_eq,
}
use volt_hub_csms.Outbox.{emit_outbox}
use volt_hub_csms.Outbox.Index.{DistinctKeys, IsIndexed, emit_outbox-IsIndexed}
use volt_hub_csms.Relay.{Stop, before_ack, never, seen_keys, relay_cycles}
use volt_hub_csms.Relay.Arrivals.{IsSafe, relay_cycles-IsSafe}
use volt_hub_csms.Relay.Delivery.{backlog, completed, relay_cycles_drain}
use volt_hub_csms.Relay.Mirror.{Distinct, relay_cycles-Distinct}
use volt_hub_csms.Directory.{UserRequest}
use volt_hub_csms.Directory.Registration.{IsNumbered, race, accounts, create_user_races}
use volt_hub_csms.Metering.Index.{
  ReadingIndex, readings_for, of_session, IsIndex, readings_for-eq-of_session,
}
use volt_hub_csms.Tests.Data.{left_connector, limits}

abbrev ana : UserRequest
ana = record { email = "ana@volt"; full_name = "Ana"; phone = none; role = Role.driver }

empty-IsNumbered : IsNumbered create_store.directory
unfolding lookup
empty-IsNumbered = λ id h. refl

create_user_races_example :
    ((race (λ s. s) ana ana "h1" "h2" 10 create_store).0 ≡ ok 1)
    × ((race (λ s. s) ana ana "h1" "h2" 10 create_store).1 ≡ ok 2)
    × (accounts (λ s. s) "ana@volt" (race (λ s. s) ana ana "h1" "h2" 10 create_store).2 ≡ 2)
create_user_races_example =
    create_user_races (λ s. s) ana ana "h1" "h2" 10 create_store empty-IsNumbered refl refl refl

abbrev hold : Payload
hold =
    connector_state left_connector ConnectorStatus.available ConnectorStatus.reserved
      Cause.reservation (some 1)

-- Two events, and a worker that is killed before it acknowledges the first time.
abbrev queue : Outbox
queue =
    emit_outbox limits 2 (meter_tick 1 2) hold
      (emit_outbox limits 1 (meter_tick 1 1) hold empty_outbox)

abbrev cycles : List (ℕ × Stop)
cycles = (10, before_ack) ∷ (20, never) ∷ (30, never) ∷ []

empty-IsIndexed : IsIndexed empty_outbox
empty-IsIndexed = record { agrees = λ k. refl; distinct = tt; accounted = refl }

queue-DistinctKeys : DistinctKeys queue.events
queue-DistinctKeys =
    (emit_outbox-IsIndexed limits 2 (meter_tick 1 2) hold
      (emit_outbox limits 1 (meter_tick 1 1) hold empty_outbox)
      (emit_outbox-IsIndexed limits 1 (meter_tick 1 1) hold empty_outbox empty-IsIndexed)).distinct

relay_cycles_drain_example :
    backlog (relay_cycles limits 1 cycles ([], queue)).1
    ≤ backlog queue - completed limits 1 cycles * 1
relay_cycles_drain_example = relay_cycles_drain limits 1 cycles ([], queue)

relay_cycles-Distinct_example : Distinct (seen_keys (relay_cycles limits 1 cycles ([], queue)).0)
relay_cycles-Distinct_example = relay_cycles-Distinct limits 1 cycles [] queue tt queue-DistinctKeys

abbrev tick_event : ℕ → Event
tick_event n = record {
  event_id = n;
  dedupe_key = meter_tick 1 n;
  payload = hold;
  created_at = n;
  processed_at = none;
  quarantine_reason = none;
}

abbrev two_events : Outbox
two_events = record empty_outbox { events = tick_event 1 ∷ tick_event 2 ∷ [] }

relay_cycles-IsSafe_example :
    IsSafe limits 1 (meter_tick 1 1) (relay_cycles limits 1 cycles ([], two_events))
relay_cycles-IsSafe_example =
    relay_cycles-IsSafe limits 1 cycles (meter_tick 1 1) [] two_events (refl, (refl, tt))
      (inl (ground (arith, key_eq.same_iff (meter_tick 1 1) (meter_tick 1 1))))

abbrev reading : ℕ → ℕ → Reading
reading sid n = record {
  session_id = sid;
  seq_no = n;
  taken_at = 100;
  meter_kwh = whole n;
  power_kw = none;
  voltage_v = none;
  current_a = none;
}

-- The index has the first two readings.
abbrev indexed : ReadingIndex
indexed = record { by_session = (1, reading 1 1 ∷ []) ∷ (2, reading 2 1 ∷ []) ∷ []; indexed = 2 }

indexed-IsIndex : IsIndex (reading 1 1 ∷ reading 2 1 ∷ []) indexed
unfolding lookup
indexed-IsIndex = (refl, λ sid. ground arith)

readings_for-eq-of_session_example :
    ((readings_for 1 (reading 1 1 ∷ reading 2 1 ∷ reading 1 2 ∷ []) indexed).0
      ≡ of_session 1 (reading 1 1 ∷ reading 2 1 ∷ reading 1 2 ∷ []))
    × IsIndex
        (reading 1 1 ∷ reading 2 1 ∷ reading 1 2 ∷ [])
        (readings_for 1 (reading 1 1 ∷ reading 2 1 ∷ reading 1 2 ∷ []) indexed).1
readings_for-eq-of_session_example =
    readings_for-eq-of_session 1 (reading 1 1 ∷ reading 2 1 ∷ []) (reading 1 2 ∷ []) indexed
      indexed-IsIndex
