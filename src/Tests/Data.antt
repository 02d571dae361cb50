-- ===== src/Tests/Data.antt =====
-- A small network: one charge point with two connectors, one tariff, and a day of calls.
use volt_hub_csms.Prelude.{false, ℕ, List, [], ◌∷◌, none, some}
use volt_hub_csms.Prelude.Decimal.{whole, hundredths}
use volt_hub_csms.State.{
  Store, Charging, ChargePoint, Money, Connector, ConnectorRef, ConnectorStatus, SessionState,
  all_days, remark, create_store, empty_charging, empty_money,
}
use volt_hub_csms.Outbox.{Limits}
use volt_hub_csms.Billing.{LocalTime}
use volt_hub_csms.Sessions.{StartRequest}
use volt_hub_csms.System.{Call, create, expire, start, transit, stop, bill, pay, fund}

abbrev pub limits : Limits
limits = record { retention_ms = 1000; soft_cap = 3; hard_cap = 4; prune_interval_ms = 60000 }

abbrev pub noon : ℕ → LocalTime
noon t = record { dow = 3; mins = 720 }

abbrev pub left_connector : ConnectorRef
left_connector = record { cp_id = 1; connector_no = 1 }

abbrev pub right_connector : ConnectorRef
right_connector = record { cp_id = 1; connector_no = 2 }

abbrev pub fresh_connector : Connector
fresh_connector = record {
  standard_id = 1;
  max_power_kw = whole 22;
  status = ConnectorStatus.available;
  last_state_change_at = 0;
}

abbrev pub demo_cp : ChargePoint
demo_cp = record {
  cp_id = 1;
  station_id = 1;
  ocpp_identity = "VH-1-CP1";
  auth_secret = "s";
  vendor = "VoltHub";
  model = "VH-AC22";
  is_online = false;
  last_boot_at = none;
  last_seen_at = none;
}

abbrev pub demo_charging : Charging
demo_charging = record empty_charging {
  cps = (1, demo_cp) ∷ [];
  cps_by_ocpp = ("VH-1-CP1", 1) ∷ [];
  cp_seq = 1;
  connectors = (left_connector, fresh_connector) ∷ (right_connector, fresh_connector) ∷ [];
}

abbrev pub demo_money : Money
demo_money = record empty_money {
  plans =
      (
        1,
        record {
          plan_id = 1;
          group_id = 1;
          version_no = 1;
          name = some "Standard";
          session_fee = hundredths 50;
          active_from = 0;
          active_to = none;
          supersedes_plan_id = none;
          created_by = none;
        },
      )
      ∷ [];
  bands =
      record {
        band_id = 1;
        plan_id = 1;
        day_scope = all_days;
        start_time = 0;
        end_time = 0;
        price_per_kwh = hundredths 30;
      }
      ∷ [];
  plan_seq = 1;
  band_seq = 1;
}

abbrev pub demo : Store
demo = record create_store { charging = demo_charging; money = demo_money }

abbrev pub demo_start : StartRequest
demo_start = record {
  uid = 7;
  vehicle_id = some 3;
  key = left_connector;
  plan_id = 1;
  reservation_id = none;
  id_tag = none;
  meter_start_kwh = none;
}

-- A booking, a second one that is refused, the session that uses the first, its bill and its payment.
abbrev pub day : List (ℕ × Call)
day =
    (1000, create 7 (some 3) left_connector (some 2000) (some 2000000))
    ∷ (1001, create 8 none left_connector (some 3000) (some 2000000))
    ∷ (2000, start demo_start)
    ∷ (2500, transit 1 SessionState.charging none)
    ∷ (9000, stop 1 none (some (whole 10)))
    ∷ (9001, bill 1)
    ∷ (9002, fund 7 (some (whole 20)) (remark "card"))
    ∷ (9003, pay 1 7)
    ∷ (9004, expire)
    ∷ []
