-- ===== src/Tests/Ocpp.antt =====
-- The OCPP gateway at concrete inputs.
use volt_hub_csms.Prelude.{
  suc, ◌<◌, ◌≡◌, ◌↔◌, refl, true, String, [], ◌∷◌, none, some, arith, nat_eq, text_comparable,
}
use volt_hub_csms.Prelude.Lists.{push}
use volt_hub_csms.Prelude.Int.{◌-ℤ◌}
use volt_hub_csms.Prelude.Decimal.{whole}
use volt_hub_csms.Prelude.Dict.{lookup}
use volt_hub_csms.Prelude.Outcome.{ok}
use volt_hub_csms.State.{
  Store, Session, ConnectorStatus, SessionState, BillingState, Reading, accepted, ref_eq,
}
use volt_hub_csms.Metering.Replay.{IsMetered}
use volt_hub_csms.Ocpp.Messages.{
  str, obj, end, Message, call_message, frame_for, parse, encode, parse-encode,
}
use volt_hub_csms.Ocpp.Calls.{
  Pending, Calls, Answer, result_answer, Peer, unknown, handle_csms_result, answer_call, correlate,
  ack_for, letter_reason, sweep_expired_acks,
}
use volt_hub_csms.Ocpp.Correlated.{take_answers, forged_answers, answered_once}
use volt_hub_csms.Ocpp.Expiry.{sweep_expired_acks_pending}
use volt_hub_csms.Ocpp.Reports.{StatusReport, status_notification, done}
use volt_hub_csms.Ocpp.Meters.{World, energy_sample, meter_values, cursor_of}
use volt_hub_csms.Ocpp.Frames.{handle_call, stop}
use volt_hub_csms.Ocpp.Status.{connector_at, status_at, faulted_then_available}
use volt_hub_csms.Ocpp.Metered.{IsAhead, meter_values_recorded}
use volt_hub_csms.Ocpp.Owned.{IsForeign, handle_call_foreign}
use volt_hub_csms.Tests.Data.{demo, demo_charging, left_connector, limits}

-- A wire that carries one message.
abbrev greeting : Message
greeting = call_message (str "1") (str "Heartbeat") (obj end)

parse-encode_example :
    parse
      (λ _. "frame")
      (λ _. some (frame_for greeting))
      (encode (λ _. "frame") (λ _. some (frame_for greeting)) greeting)
    ≡ ok greeting
parse-encode_example = parse-encode (λ _. "frame") (λ _. some (frame_for greeting)) greeting refl

abbrev sent : Pending
sent = record {
  action = "SetChargingProfile";
  cp_id = some 1;
  identity = some "VH-1-CP1";
  push_id = none;
  decision_id = none;
  deadline = 100;
  expects_status = true;
  resolves = true;
  rejects = true;
}

abbrev waiting : Calls
waiting = record {
  pending = ("u1", sent) ∷ ("u2", record sent { deadline = 900 }) ∷ [];
  unknown_results = 0;
  foreign_results = 0;
  malformed_results = 0;
  settled = [];
}

abbrev own : Peer
own = record { identity = "VH-1-CP1"; cp_id = 1 }

abbrev stranger : Peer
stranger = record { identity = "VH-2-CP1"; cp_id = 2 }

abbrev yes : Answer
yes = result_answer (some "Accepted")

forged_answers_example :
    lookup "u1"
      (take_answers
        (λ s. s)
        10
        ((5, "u1", yes, stranger) ∷ (6, "u3", yes, stranger) ∷ [])
        (waiting, demo)).0.pending
    ≡ some sent
unfolding lookup
forged_answers_example =
    forged_answers (λ s. s) 10 "u1" sent ((5, "u1", yes, stranger) ∷ (6, "u3", yes, stranger) ∷ [])
      (waiting, demo) (refl, (refl, tt)) (refl, (refl, tt)) refl

abbrev answered : Calls × Store
answered = let r = handle_csms_result (λ s. s) 10 5 "u1" yes own (waiting, demo) in (r.1, r.2)

answered_once_example :
    ((handle_csms_result (λ s. s) 10 9 "u1" yes own answered).0 ≡ unknown)
    × ((handle_csms_result (λ s. s) 10 9 "u1" yes own answered).2 ≡ demo)
    × ((handle_csms_result (λ s. s) 10 9 "u1" yes own answered).1.settled ≡ answered.0.settled)
unfolding lookup handle_csms_result answer_call correlate ack_for letter_reason
answered_once_example =
    answered_once (λ s. s) 10 5 9 "u1" yes yes own own accepted [] (waiting, demo) answered
      (handle_csms_result (λ s. s) 10 5 "u1" yes own (waiting, demo)) (refl, (refl, tt)) refl refl
      refl

sweep_expired_acks_pending_example :
    (lookup "u2" (sweep_expired_acks (λ s. s) 10 200 (waiting, demo)).1.pending
      ≡ some (record sent { deadline = 900 }))
    ↔ ((lookup "u2" waiting.pending ≡ some (record sent { deadline = 900 })) × (200 < 900))
unfolding lookup
sweep_expired_acks_pending_example =
    sweep_expired_acks_pending (λ s. s) 10 200 "u2" (record sent { deadline = 900 }) (waiting, demo)
      (refl, (refl, tt))

abbrev report : String → StatusReport
report status = record { connector_id = 1; status = status; error_code = none; info = none }

faulted_then_available_example :
    status_at
      (connector_at 1 1)
      (status_notification limits 20 1
        (report "Available")
        (status_notification limits 10 1 (report "Faulted") demo).1).1
    ≡ some ConnectorStatus.available
unfolding lookup
faulted_then_available_example =
    faulted_then_available limits 10 20 1 (report "Faulted") (report "Available") demo
      ConnectorStatus.available refl refl refl refl

-- A session on the first charge point, with one reading, just after a restart.
abbrev charging : Session
charging = record {
  session_id = 1;
  user_id = 7;
  vehicle_id = none;
  reservation_id = none;
  connector_ref = left_connector;
  tariff_plan_id = 1;
  id_tag = none;
  state = SessionState.charging;
  billing_state = BillingState.unbilled;
  started_at = 2000;
  ended_at = none;
  start_meter_kwh = whole 0;
  end_meter_kwh = none;
  energy_kwh = none;
  stop_reason = none;
}

abbrev first_reading : Reading
first_reading = record {
  session_id = 1;
  seq_no = 4;
  taken_at = 2500;
  meter_kwh = whole 1;
  power_kw = none;
  voltage_v = none;
  current_a = none;
}

abbrev restarted : World
restarted = record {
  store = record demo {
    charging = record demo_charging {
      sessions = (1, charging) ∷ [];
      sess_seq = 1;
      readings = first_reading ∷ [];
    };
  };
  cursors = [];
}

restarted-IsMetered : IsMetered restarted.store.charging
unfolding lookup
restarted-IsMetered = λ sid n. ground arith

restarted-IsAhead : IsAhead restarted
unfolding lookup
restarted-IsAhead = λ sid n m h k. ground (arith, h)

meter_values_recorded_example :
    ((meter_values limits 3000 1 (some 1) (energy_sample (some (whole 2)) none) restarted).0 ≡ done)
    × ((meter_values limits 3000 1
          (some 1)
          (energy_sample (some (whole 2)) none)
          restarted).1.store.charging.readings
        ≡ push
            (record {
              session_id = 1;
              seq_no = suc (cursor_of 1 restarted);
              taken_at = 3000;
              meter_kwh = whole 2;
              power_kw = none;
              voltage_v = none;
              current_a = none;
            })
            (first_reading ∷ []))
unfolding lookup ◌-ℤ◌
meter_values_recorded_example =
    meter_values_recorded limits 3000 1 1 (whole 2) none restarted charging restarted-IsMetered
      restarted-IsAhead refl refl refl refl

charging-IsForeign : IsForeign 2 1 charging restarted.store.charging
unfolding lookup
charging-IsForeign = ((refl, refl, tt), λ k h. ground (arith, h), refl, omega arith)

-- The second charge point tries to stop the session of the first.
handle_call_foreign_example :
    lookup 1
      (handle_call
        (λ _. none)
        limits
        3000
        2
        (stop (some 1) (some (whole 9)))
        restarted).1.store.charging.sessions
    ≡ some charging
handle_call_foreign_example =
    handle_call_foreign limits 3000 2 1 charging restarted charging-IsForeign (λ _. none)
      (stop (some 1) (some (whole 9)))
