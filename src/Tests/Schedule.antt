-- ===== src/Tests/Schedule.antt =====
-- The schedule assembler, admission control and the compiler of profiles at concrete inputs.
use volt_hub_csms.Prelude.{
  ℕ, false, ◌+◌, ◌*◌, ◌<◌, ◌≡◌, ◌≢◌, refl, true, false, [], ◌∷◌, none, some, arith, if◌then◌else◌,
  ltb, nat_eq,
}
use volt_hub_csms.Prelude.Int.{pos}
use volt_hub_csms.Prelude.Dict.{lookup}
use volt_hub_csms.Prelude.Outcome.{ok}
use volt_hub_csms.Grid.{site_cap_kw, cap_over}
use volt_hub_csms.State.{Store, AssetKind, AssetStatus}
use volt_hub_csms.Schedule.{Vehicle, Problem, sum_site}
use volt_hub_csms.Schedule.Sorting.{All}
use volt_hub_csms.Schedule.Shift.{solve_schedule, delivered, unmet}
use volt_hub_csms.Schedule.Caps.{IsWithinCaps, solve_schedule-IsWithinCaps}
use volt_hub_csms.Schedule.Times.{IsTimely, solve_schedule-IsTimely}
use volt_hub_csms.Schedule.Energy.{total_remaining, solve_schedule_totals}
use volt_hub_csms.Schedule.Floors.{lone_problem, solve_schedule_exceeds}
use volt_hub_csms.Certify.{certify_site, worst_case}
use volt_hub_csms.Certify.Promises.{IsCovered, certify_site-IsCovered}
use volt_hub_csms.Certify.Floor.{IsFloor, worst_case-IsFloor}
use volt_hub_csms.Controller.{envelope_check, compile_profile}
use volt_hub_csms.Controller.Envelope.{envelope_check-compile_profile, envelope_check_refuses}
use volt_hub_csms.Profiles.{PushRequest}
use volt_hub_csms.Ocpp.SmartCharging.{Plant, set_charging_profile}
use volt_hub_csms.Ocpp.SmartCharging.Safety.{IsSafe, set_charging_profile-IsSafe}
use volt_hub_csms.Tests.Data.{demo, demo_cp, limits}

-- A car of 7 kW that wants 7 kWh, has no deadline, and whose battery is not known.
abbrev car : ℕ → Vehicle
car id = record {
  session_id = id;
  cp_id = id;
  max_kw = 7000000;
  remaining = 420000000;
  deadline_at = none;
  arrival_at = none;
  certified_floor_kw = 0;
  battery_kwh = none;
  soc_ref = none;
  start_soc = none;
}

abbrev promised_car : Vehicle
promised_car = record (car 1) { certified_floor_kw = 2000000 }

-- A car of 50 kWh that is three quarters full and leaves after half an hour.
abbrev full_car : Vehicle
full_car = record (car 2) {
  deadline_at = some 1800000;
  battery_kwh = some 50000000;
  soc_ref = some 750000;
}

-- Two cars on a site of 9 kW, of which the first may draw 5; the second hour is cheaper.
abbrev two_cars : Problem
two_cars = record {
  vehicles = promised_car ∷ full_car ∷ [];
  site_cap_kw = some 9000000;
  cp_caps = (1, 5000000) ∷ [];
  price = λ t. if ltb t 3600000 then 300000 else 200000;
  dt_min = 30;
  horizon = 4;
  now = 0;
  acceptance_aware = true;
  carbon = none;
  carbon_weight = 0;
  social_cost = 0;
}

solve_schedule-IsWithinCaps_example : IsWithinCaps two_cars (solve_schedule two_cars).entries
solve_schedule-IsWithinCaps_example = solve_schedule-IsWithinCaps two_cars

-- The first car arrives ten minutes after the beginning, the second leaves after half an hour.
abbrev late_car : Problem
late_car = record two_cars {
  vehicles = record promised_car { arrival_at = some 600000 } ∷ full_car ∷ [];
}

solve_schedule-IsTimely_example : All (IsTimely late_car) (solve_schedule late_car).entries
solve_schedule-IsTimely_example = solve_schedule-IsTimely late_car (omega arith)

solve_schedule_totals_example :
    delivered 4 (solve_schedule two_cars).entries + unmet (solve_schedule two_cars).entries
    ≡ total_remaining (promised_car ∷ full_car ∷ [])
solve_schedule_totals_example = solve_schedule_totals two_cars

-- A promise of 2 kW and a rating of 7: 9 kW are planned.
solve_schedule_exceeds_example :
    (sum_site 0 (solve_schedule (lone_problem promised_car 0 30 true)).entries
      ≡ (2000000 + 7000000) * 30)
    × (7000000 * 30 < sum_site 0 (solve_schedule (lone_problem promised_car 0 30 true)).entries)
solve_schedule_exceeds_example =
    solve_schedule_exceeds promised_car 0 30 true refl refl refl (omega arith) (omega arith)
      (omega arith) (omega arith)

certify_site-IsCovered_example :
    IsCovered 9000000
      (certify_site limits 0 1
        (λ s. s)
        (λ _. 1)
        (some 9000000)
        60000000
        (promised_car ∷ full_car ∷ [])
        demo).vehicles
certify_site-IsCovered_example =
    certify_site-IsCovered limits 0 1 (λ s. s) (λ _. 1) 9000000 60000000 refl
      (promised_car ∷ full_car ∷ []) demo ((refl, refl, (refl, refl, tt)), omega arith)

-- Two quarters of an hour from three quarters on, where a target of 3 kWh is met in the second.
worst_case-IsFloor_example :
    IsFloor 7000000 (some 9000000) 180000000 0 1 (some (50000000, 750000)) (
      worst_case 7000000
        (some 9000000)
        180000000
        2
        (record { energy = 0; last_rate = 7000000 })
        (some (50000000, 750000)))
worst_case-IsFloor_example =
    worst_case-IsFloor 7000000 (some 9000000) 180000000 1 7000000 (some (50000000, 750000))
      (omega arith)

-- The station of the demo with a capacity.
abbrev capped : ℕ → Store
capped kw = record demo {
  grid = record demo.grid {
    assets =
        (
          1,
          record {
            asset_id = 1;
            station_id = 1;
            parent_id = none;
            kind = AssetKind.site;
            label = none;
            cap_kw = pos kw;
            ramp_kw = none;
            status = AssetStatus.active;
            proposed_by = none;
            approved_by = none;
            created_at = 0;
            updated_at = 0;
          },
        )
        ∷ [];
  };
}

capped_cap : (kw : ℕ) → site_cap_kw 1 (capped kw).grid ≡ some (pos kw)
unfolding cap_over
capped_cap kw = refl

demo_point : lookup 1 demo.charging.cps ≡ some demo_cp
unfolding lookup
demo_point = refl

envelope_check-compile_profile_example :
    envelope_check 1 (compile_profile (some 9000000) 15 24 0 (λ t. 200000000)) (capped 9000000)
    ≡ ok tt
envelope_check-compile_profile_example =
    envelope_check-compile_profile 1 9000000 15 24 0 (λ t. 200000000) demo_cp (capped 9000000)
      demo_point (capped_cap 9000000) refl

-- A capacity of 9.0005 kW and a bit: the profile says 9.001 kW.
envelope_check_refuses_example :
    envelope_check 1 (compile_profile (some 9000600) 15 24 0 (λ t. 200000000)) (capped 9000600)
    ≢ ok tt
envelope_check_refuses_example =
    envelope_check_refuses 1 9000600 15 24 0 (λ t. 200000000) demo_cp (capped 9000600) demo_point
      (capped_cap 9000600) (omega arith) (omega arith) (omega arith)

-- The charge point is connected, and the profile asks for all of 9 kW.
abbrev plant : Plant
plant = record {
  store = capped 9000000;
  calls = record {
    pending = [];
    unknown_results = 0;
    foreign_results = 0;
    malformed_results = 0;
    settled = [];
  };
  registry = record {
    sockets = ("VH-1-CP1", record { socket_id = 1; is_open = true; push_times = [] }) ∷ [];
    last_msg = [];
    closed = [];
  };
  sent = [];
}

abbrev request : PushRequest
request = record {
  decision_id = 1;
  cp_id = 1;
  profile_payload = none;
  payload_sha256 = none;
  clamped = false;
}

set_charging_profile-IsSafe_example :
    IsSafe
      (set_charging_profile limits 1000 10000 60000 "sc-1" request
        (compile_profile (some 9000000) 15 24 0 (λ t. 200000000))
        plant).1
unfolding compile_profile
set_charging_profile-IsSafe_example =
    set_charging_profile-IsSafe limits 1000 10000 60000 "sc-1" request
      (compile_profile (some 9000000) 15 24 0 (λ t. 200000000)) plant refl tt
