-- ===== src/Ocpp/Frames.antt =====
-- The calls of charge points, in the message handler of apps/api/src/ocpp/gateway.js: one function for each
-- action, with the reply. The fields of a payload come as the handler reads them: a number that is
-- no number is `none`.
use volt_hub_csms.Prelude.{
  ℕ, Bool, true, false, String, List, [], ◌∷◌, Option, none, some, ltb, ◌==◌, nat_eq,
  text_comparable, if◌then◌else◌,
}
use volt_hub_csms.Prelude.Int.{pos}
use volt_hub_csms.Prelude.Decimal.{Decimal}
use volt_hub_csms.Prelude.Lists.{filter}
use volt_hub_csms.Prelude.Dict.{values, lookup, insert, erase, contains_key}
use volt_hub_csms.Prelude.Outcome.{Outcome, ok, err}
use volt_hub_csms.State.{Store, ref_eq, Session, Plan, Failure, Code, reservation_mismatch}
use volt_hub_csms.Outbox.{Limits}
use volt_hub_csms.Sessions.{StartRequest, start_session, stop_session}
use volt_hub_csms.Ocpp.Reports.{
  Reply, done, tag_status, transaction, call_error, StatusReport, status_notification,
}
use volt_hub_csms.Ocpp.Meters.{World, Sample, meter_values}

-- The user of a tag, if there is one with that number: `tag_number` reads `TAG-` and digits.
abbrev pub user_of_tag : (String → Option ℕ) → String → Store → Option ℕ
user_of_tag tag_number tag s = elim (tag_number tag) [
  | none ↦ none
  | some uid ↦ if contains_key uid s.directory.users then some uid else none
]

unfoldable pub authorize : (String → Option ℕ) → String → Store → Reply
authorize tag_number tag s = elim (user_of_tag tag_number tag s) [
  | none ↦ tag_status false
  | some _ ↦ tag_status true
]

-- `reduce((a, b) => (b.version_no > a.version_no ? b : a))`
abbrev pub newest_plan : Plan → List Plan → Plan
newest_plan a [] = a
newest_plan a (b ∷ bs) = newest_plan (if ltb a.version_no b.version_no then b else a) bs

abbrev pub first_newest : List Plan → ℕ
first_newest [] = 2
first_newest (p ∷ ps) = (newest_plan p ps).plan_id

-- `s.defaultPlanId`
unfoldable pub default_plan_id : List Plan → ℕ
default_plan_id plans =
    let city = filter (λ p. p.group_id == 1) plans in
    elim city as (λ _. ℕ) [ [] ↦ first_newest plans | _ ∷ _ ↦ first_newest city ]

abbrev pub is_mismatch : Code → Bool
is_mismatch reservation_mismatch = true
is_mismatch _ = false

-- The reply to a start, and the cursor of the new session.
unfoldable pub started : Outcome Failure Session × Store → World → Reply × World
started (ok x, s) w =
    (transaction x.session_id true, record { store = s; cursors = insert x.session_id 0 w.cursors })
started (err f, s) w = (
  (if is_mismatch f.code then transaction 0 false else call_error "InternalError"),
  record w { store = s },
)

module _ (tag_number : String → Option ℕ) (l : Limits) (now : ℕ) where
  unfoldable pub start_transaction : ℕ → String → ℕ → Option Decimal → World → Reply × World
  start_transaction cp tag connector meter_start w = elim (user_of_tag tag_number tag w.store) [
    | none ↦ (transaction 0 false, w)
    | some uid ↦
        let q : StartRequest = record {
          uid = uid;
          vehicle_id = none;
          key = record { cp_id = cp; connector_no = connector };
          plan_id = default_plan_id (values w.store.money.plans);
          reservation_id = none;
          id_tag = some tag;
          meter_start_kwh = elim meter_start [ none ↦ some (pos 0) | some x ↦ some x ];
        } in
        started (start_session l now q w.store) w
  ]

module _ (l : Limits) (now : ℕ) where
  unfoldable pub stop_own : ℕ → Option Decimal → World → Reply × World
  stop_own sid meter_stop w =
      let r = stop_session l now sid (some "OCPP_STOP") meter_stop w.store in
      let after : World = record { store = r.1; cursors = erase sid w.cursors } in
      elim r.0 [ ok _ ↦ (tag_status true, after) | err _ ↦ (call_error "InternalError", after) ]

  -- StopTransaction
  unfoldable pub stop_transaction : ℕ → Option ℕ → Option Decimal → World → Reply × World
  stop_transaction cp none meter_stop w = (tag_status true, w)
  stop_transaction cp (some sid) meter_stop w = elim (lookup sid w.store.charging.sessions) [
    | none ↦ (tag_status true, w)
    | some x ↦
        if x.connector_ref.cp_id == cp
        then stop_own sid meter_stop w
        else (call_error "SecurityError", w)
  ]

-- A CALL, by its action.
pub data Request : Type 0 where
  boot_notification heartbeat : Request
  status_report : StatusReport → Request
  authorize_tag : String → Request
  -- tag, connector, register
  start : String → ℕ → Option Decimal → Request
  -- transaction, sample
  meters : Option ℕ → Sample → Request
  -- transaction, register
  stop : Option ℕ → Option Decimal → Request
  unsupported : Request

abbrev pub put_store : Store → World → World
put_store s w = record w { store = s }

-- The row of the charge point, with the time of its last boot or of its last heartbeat.
abbrev pub booted : ℕ → ℕ → Store → Store
booted now cp s = elim (lookup cp s.charging.cps) [
  | none ↦ s
  | some x ↦ record s {
    charging = record s.charging {
      cps = insert cp (record x { last_boot_at = some now }) s.charging.cps;
    };
  }
]

abbrev pub seen_at : ℕ → ℕ → Store → Store
seen_at now cp s = elim (lookup cp s.charging.cps) [
  | none ↦ s
  | some x ↦ record s {
    charging = record s.charging {
      cps = insert cp (record x { last_seen_at = some now }) s.charging.cps;
    };
  }
]

-- The `switch` on the action.
unfoldable pub handle_call : (String → Option ℕ) → Limits → ℕ → ℕ → Request → World → Reply × World
handle_call tags l now cp boot_notification w = (done, put_store (booted now cp w.store) w)
handle_call tags l now cp heartbeat w = (done, put_store (seen_at now cp w.store) w)
handle_call tags l now cp (status_report p) w =
    let r = status_notification l now cp p w.store in (r.0, put_store r.1 w)
handle_call tags l now cp (authorize_tag tag) w = (authorize tags tag w.store, w)
handle_call tags l now cp (start tag connector register) w =
    start_transaction tags l now cp tag connector register w
handle_call tags l now cp (meters tx sample) w = meter_values l now cp tx sample w
handle_call tags l now cp (stop tx register) w = stop_transaction l now cp tx register w
handle_call tags l now cp unsupported w = (call_error "NotSupported", w)
