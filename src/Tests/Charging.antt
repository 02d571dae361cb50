-- ===== src/Tests/Charging.antt =====
-- Reservations and sessions at concrete inputs.
use volt_hub_csms.Prelude.{ℕ, ◌≡◌, refl, [], ◌∷◌, none, some, arith, nat_eq}
use volt_hub_csms.Prelude.Dict.{lookup, insert}
use volt_hub_csms.Prelude.Int.{◌-ℤ◌}
use volt_hub_csms.Prelude.Decimal.{whole}
use volt_hub_csms.Prelude.Table.{IsTable}
use volt_hub_csms.Prelude.Outcome.{ok}
use volt_hub_csms.State.{Reservation, booked, Store, ref_eq, Session, Connector, ConnectorStatus}
use volt_hub_csms.Booking.{create_reservation, check_reservation, check_window, book}
use volt_hub_csms.Booking.Holds.{IsHeld}
use volt_hub_csms.Booking.Windows.{IsDisjoint}
use volt_hub_csms.Booking.HoldsKept.{create_reservation-IsHeld}
use volt_hub_csms.Metering.{TickRequest, recorded, deduped, record_tick, check_tick}
use volt_hub_csms.Metering.Replay.{IsMetered, record_tick-IsMetered, record_tick_twice}
use volt_hub_csms.Sessions.{new_session, start_session, check_start, resolve_reservation}
use volt_hub_csms.Sessions.Ownership.{start_session_owned}
use volt_hub_csms.Sessions.Sound.{IsSound}
use volt_hub_csms.System.{run}
use volt_hub_csms.System.History.{IsCharging, run-IsCharging}
use volt_hub_csms.Tests.Data.{
  limits, noon, left_connector, demo, demo_charging, demo_start, day, fresh_connector,
}

pub demo-IsHeld : IsHeld demo_charging
unfolding lookup
demo-IsHeld = record { table = tt; fresh = λ k h. refl; agrees = λ k c e. ground (arith, e) }

pub demo-IsDisjoint : IsDisjoint demo_charging.reservations
unfolding lookup
demo-IsDisjoint = record {
  disjoint = λ i j r q e f ne. absurd (ground (arith, e));
  windows = λ i r e. absurd (ground (arith, e));
}

pub demo-IsSound : IsSound demo_charging
unfolding lookup
demo-IsSound = record {
  table = tt;
  fresh = λ k h. refl;
  live = λ i x e. absurd (ground (arith, e));
  occupied = λ i x c e act l. absurd (ground (arith, e));
  single = λ i j x y e f ne a b. absurd (ground (arith, e));
}

pub demo-IsCharging : IsCharging demo_charging
demo-IsCharging = record { held = demo-IsHeld; windows = demo-IsDisjoint; sound = demo-IsSound }

run-IsCharging_example : IsCharging (run limits noon day demo).charging
run-IsCharging_example = run-IsCharging limits noon day demo demo-IsCharging

-- The left connector is held for user 7.
abbrev held : Store
held = (create_reservation limits 1000 7 (some 3) left_connector (some 2000) (some 2000000) demo).1

held-IsHeld : IsHeld held.charging
held-IsHeld =
    create_reservation-IsHeld limits 1000 7 (some 3) left_connector (some 2000) (some 2000000) demo
      demo-IsHeld

abbrev held_connector : Connector
held_connector = record fresh_connector {
  status = ConnectorStatus.reserved;
  last_state_change_at = 1000;
}

abbrev adopted : Session
adopted = new_session 2000 demo_start (some 1) demo_charging

held_lem : lookup left_connector held.charging.connectors ≡ some held_connector
unfolding create_reservation check_reservation check_window book lookup insert
held_lem = refl

adopted_lem : (start_session limits 2000 demo_start held).0 ≡ ok adopted
unfolding create_reservation check_reservation check_window book lookup insert start_session
    check_start resolve_reservation
adopted_lem = refl

start_session_owned_example :
    (id : ℕ) × (r : Reservation) × (adopted.reservation_id ≡ some id)
    × (lookup id held.charging.reservations ≡ some r)
    × (r.user_id ≡ 7)
    × (r.connector_ref ≡ left_connector)
    × (r.status ≡ booked)
start_session_owned_example =
    start_session_owned limits 2000 demo_start held adopted held_connector held-IsHeld held_lem refl
      adopted_lem

abbrev first_session : Session
first_session = new_session 2000 demo_start none demo_charging

abbrev metered : Store
metered = record demo {
  charging = record demo_charging { sessions = (1, first_session) ∷ []; sess_seq = 1 };
}

abbrev first_tick : TickRequest
first_tick = record {
  sid = 1;
  seq = 1;
  at = none;
  kwh = some (whole 2);
  kw = none;
  v = none;
  a = none;
}

metered-IsTable : IsTable (λ (x : Session). x.session_id) metered.charging.sessions
unfolding lookup
metered-IsTable = (refl, refl, tt)

recorded_lem : (record_tick limits 3000 first_tick metered).0 ≡ ok recorded
unfolding record_tick check_tick lookup ◌-ℤ◌
recorded_lem = refl

record_tick_twice_example :
    let after = (record_tick limits 3000 first_tick metered).1 in
    let second = record_tick limits 4000 first_tick after in
    (second.0 ≡ ok deduped)
    × (second.1.charging.readings ≡ after.charging.readings)
    × (second.1.charging.ticks ≡ after.charging.ticks)
    × (second.1.outbox ≡ after.outbox)
record_tick_twice_example =
    record_tick_twice limits 3000 4000 first_tick first_tick (whole 2) metered metered-IsTable
      recorded_lem refl refl refl

demo-IsMetered : IsMetered demo_charging
unfolding lookup
demo-IsMetered = λ sid n. refl

record_tick-IsMetered_example : IsMetered (record_tick limits 3000 first_tick demo).1.charging
record_tick-IsMetered_example = record_tick-IsMetered limits 3000 first_tick demo demo-IsMetered
