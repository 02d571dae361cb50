-- ===== src/Ocpp/Reports.antt =====
-- What a charge point is told, and its reports of the status of a connector: StatusNotification in
-- apps/api/src/ocpp/gateway.js.
use volt_hub_csms.Prelude.{
  ℕ, suc, Bool, true, false, ◌&&◌, ◌||◌, String, [], ◌∷◌, Option, none, some, ◌==◌, nat_eq,
  text_comparable, if◌then◌else◌,
}
use volt_hub_csms.Prelude.Dict.{Dict, lookup, insert}
use volt_hub_csms.State.{
  Store, Charging, Connector, ConnectorRef, ref_eq, ConnectorStatus, Fault, Cause,
  connector_reported, connector_state,
}
use volt_hub_csms.Outbox.{Limits}
use volt_hub_csms.Store.{emit, set_status, push_state_event}

-- What is sent back: a CALLRESULT, or a CALLERROR with its code.
pub data Reply : Type 0 where
  done : Reply
  tag_status : Bool → Reply
  -- transaction, and whether the tag was accepted
  transaction : ℕ → Bool → Reply
  call_error : String → Reply

-- `STATUS` of a connector in a StatusNotification.
abbrev pub reported_status : String → ConnectorStatus
reported_status s =
    if s == "Available"
    then ConnectorStatus.available
    else if s == "Occupied"
    then ConnectorStatus.occupied
    else if s == "Reserved"
    then ConnectorStatus.reserved
    else if s == "Faulted"
    then ConnectorStatus.faulted
    else ConnectorStatus.unavailable

-- A report of AVAILABLE does not replace OCCUPIED nor RESERVED.
abbrev pub kept_status : ConnectorStatus → ConnectorStatus → ConnectorStatus
kept_status ConnectorStatus.occupied ConnectorStatus.available = ConnectorStatus.occupied
kept_status ConnectorStatus.reserved ConnectorStatus.available = ConnectorStatus.reserved
kept_status from to = to

pub record StatusReport : Type 0 where
  pub connector_id : ℕ
  pub status : String
  pub error_code : Option String
  pub info : Option String

-- `p.errorCode && p.errorCode !== 'NoError'`
abbrev pub real_error : Option String → Option String
real_error none = none
real_error (some e) = if e == "" || e == "NoError" then none else some e

abbrev pub clears_fault : ConnectorRef → Fault → Bool
clears_fault key f =
    f.connector_ref == key && f.from_charger && elim f.cleared_at [ none ↦ true | some _ ↦ false ]

abbrev pub clear_faults : ℕ → ConnectorRef → Dict ℕ Fault → Dict ℕ Fault
clear_faults now key [] = []
clear_faults now key ((id, f) ∷ fs) =
    (id, if clears_fault key f then record f { cleared_at = some now } else f)
    ∷ clear_faults now key fs

unfoldable pub note_fault : ℕ → ConnectorRef → Option String → Option String → Charging → Charging
note_fault now key none info ch = record ch { faults = clear_faults now key ch.faults }
note_fault now key (some e) info ch =
    let id = suc ch.fault_seq in
    record ch {
      fault_seq = id;
      faults =
          insert id
            (record {
              fault_id = id;
              connector_ref = key;
              error_code = e;
              from_charger = true;
              description = info;
              reported_at = now;
              cleared_at = none;
            })
            ch.faults;
    }

module _ (l : Limits) (now : ℕ) where
  -- The connector that is there takes the status.
  unfoldable pub report_status : ConnectorRef → Connector → StatusReport → Store → Store
  report_status key c p s =
      let to = kept_status c.status (reported_status p.status) in
      record (emit l now (connector_reported key now)
        (connector_state key c.status to Cause.ocpp none) s) {
          charging =
              note_fault now key (real_error p.error_code) p.info
                (set_status now key to c s.charging);
          trail = push_state_event now key c.status to Cause.ocpp none s.trail;
        }

  unfoldable pub status_notification : ℕ → StatusReport → Store → Reply × Store
  status_notification cp p s =
      let key : ConnectorRef = record { cp_id = cp; connector_no = p.connector_id } in
      elim (lookup key s.charging.connectors) as (λ _. Reply × Store) [
        | none ↦ (done, s)
        | some c ↦ (done, report_status key c p s)
      ]
