-- ===== src/State/Errors.antt =====
-- The errors that apps/api/src/db/store.js throws: `err(code, message, status)`, and those that carry an
-- Oracle number in `num`. Messages are left out.
use volt_hub_csms.Prelude.{ℕ, Option, none, some}

pub data Code : Type 0 where
  not_found forbidden out_of_scope : Code
  invalid_connector invalid_window not_bookable overlap cancel_conflict : Code
  reservation_mismatch illegal_transition meter_regression tick_rejected : Code
  no_tariff_band bill_conflict billing_conflict pay_conflict insufficient_funds : Code
  invalid_group invalid_fee invalid_band invalid_amount : Code
  grid_asset_invalid grid_cap_monotonic : Code
  challenge_invalid challenge_expired invalid_address bad_signature signature_mismatch : Code
  wallet_taken no_wallet_linked already_settled intent_expired : Code
  invalid_station duplicate_ocpp_id invalid_vehicle : Code
  duplicate_email invalid_status : Code

pub record Failure : Type 0 where
  pub code : Code
  pub status : ℕ
  -- The Oracle number is the negative of `num`.
  pub num : Option ℕ

-- `err(code, message, status)`
abbrev pub failure : Code → ℕ → Failure
failure c st = record { code = c; status = st; num = none }

-- An error object with `num`, `code` and `status` set.
abbrev pub ora_failure : Code → ℕ → ℕ → Failure
ora_failure c st n = record { code = c; status = st; num = some n }

abbrev pub missing : Failure
missing = failure not_found 404

abbrev pub e_invalid_window : Failure
e_invalid_window = ora_failure invalid_window 422 20501

abbrev pub e_not_bookable : Failure
e_not_bookable = ora_failure not_bookable 409 20502

abbrev pub e_overlap : Failure
e_overlap = ora_failure overlap 409 20503

abbrev pub e_cancel_conflict : Failure
e_cancel_conflict = ora_failure cancel_conflict 409 20504

abbrev pub e_reservation_mismatch : Failure
e_reservation_mismatch = ora_failure reservation_mismatch 409 20505

abbrev pub e_illegal_transition : Failure
e_illegal_transition = ora_failure illegal_transition 409 20601

abbrev pub e_meter_regression : Failure
e_meter_regression = ora_failure meter_regression 409 20602

abbrev pub e_tick_rejected : Failure
e_tick_rejected = ora_failure tick_rejected 409 20603

abbrev pub e_no_tariff_band : Failure
e_no_tariff_band = ora_failure no_tariff_band 422 20701

abbrev pub e_bill_conflict : Failure
e_bill_conflict = ora_failure bill_conflict 409 20702

abbrev pub e_billing_conflict : Failure
e_billing_conflict = ora_failure billing_conflict 409 20703

abbrev pub e_pay_conflict : Failure
e_pay_conflict = ora_failure pay_conflict 409 20704

abbrev pub e_insufficient_funds : Failure
e_insufficient_funds = ora_failure insufficient_funds 402 20705

abbrev pub e_grid_asset_invalid : Failure
e_grid_asset_invalid = ora_failure grid_asset_invalid 422 20901

abbrev pub e_grid_cap_monotonic : Failure
e_grid_cap_monotonic = ora_failure grid_cap_monotonic 409 20902
