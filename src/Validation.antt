-- ===== src/Validation.antt =====
-- The validators of packages/shared/src/index.js: `vReservation` and `vVehicle`, which the routes run before
-- the store is called.
pub mod Reservations
use volt_hub_csms.Prelude.{
  ℕ, ◌+◌, ◌-◌, ◌*◌, Bool, true, false, not, ◌||◌, String, Option, none, some, ltb, if◌then◌else◌,
}
use volt_hub_csms.Prelude.Int.{ltb_ℤ}
use volt_hub_csms.Prelude.Decimal.{Decimal, whole}
use volt_hub_csms.Prelude.Outcome.{Outcome, ok, err, ◌>>=◌, ◌>>◌, throw_if, or_throw}
use volt_hub_csms.State.{Failure, failure, invalid_connector, invalid_window, invalid_vehicle}

-- The body of a reservation request. A number that is no integer, and an unreadable date, is `none`.
pub record ReservationBody : Type 0 where
  pub cp_id : Option ℕ
  pub connector_no : Option ℕ
  pub start_at : Option ℕ
  pub end_at : Option ℕ

-- `vReservation`, with the two times.
unfoldable pub v_reservation : ℕ → ReservationBody → Outcome Failure (ℕ × ℕ)
v_reservation now b = do
  cp ← or_throw b.cp_id (failure invalid_connector 422)
  number ← or_throw b.connector_no (failure invalid_connector 422)
  s ← or_throw b.start_at (failure invalid_window 422)
  e ← or_throw b.end_at (failure invalid_window 422)
  throw_if (not (ltb s e)) (failure invalid_window 422)
  throw_if (ltb (e - s) (15 * 60000) || ltb (120 * 60000) (e - s)) (failure invalid_window 422)
  throw_if (not (ltb now (s + 60000))) (failure invalid_window 422)
  ok (s, e)

-- The body of a vehicle: texts that are missing or empty, and a number that is none, are `none`.
pub record VehicleBody : Type 0 where
  pub make : Option String
  pub model : Option String
  pub battery_kwh : Option Decimal

-- `vVehicle`
unfoldable pub v_vehicle : VehicleBody → Outcome Failure Decimal
v_vehicle b = do
  make ← or_throw b.make (failure invalid_vehicle 422)
  model ← or_throw b.model (failure invalid_vehicle 422)
  kwh ← or_throw b.battery_kwh (failure invalid_vehicle 422)
  throw_if (ltb_ℤ kwh (whole 5) || ltb_ℤ (whole 250) kwh) (failure invalid_vehicle 422)
  ok kwh
