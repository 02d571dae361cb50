-- ===== src/Ocpp/SmartCharging.antt =====
-- Pushing a charging profile: `setChargingProfile` of apps/api/src/ocpp/smart-charging.js. The digest of a profile and
-- the uid of the call are arguments. The payloads of the letters are left out. The identity is that
-- of the charge point, as no caller gives another.
pub mod Safety
use volt_hub_csms.Prelude.{
  ℕ, suc, ◌+◌, Bool, true, false, not, ◌&&◌, String, List, [], ◌∷◌, Option, none, some, ltb, ◌==◌,
  nat_eq, text_comparable, if◌then◌else◌,
}
use volt_hub_csms.Prelude.Lists.{push, length}
use volt_hub_csms.Prelude.Dict.{lookup, insert}
use volt_hub_csms.Prelude.Outcome.{Outcome, ok, err}
use volt_hub_csms.State.{Store, Schedule, Period, ChargePoint, push_event, push_rate_event, text}
use volt_hub_csms.Outbox.{Limits}
use volt_hub_csms.Store.{audit_log}
use volt_hub_csms.Profiles.{PushRequest, record_profile_push, mark_push_sent}
use volt_hub_csms.Controller.{envelope_check}
use volt_hub_csms.Ocpp.Calls.{Calls, Pending, register_pending_call, put_letter}
use volt_hub_csms.Ocpp.Sockets.{Registry, Socket, recent}

-- The store, the calls, the sockets, and the profiles that were sent: uid, charge point, profile.
pub record Plant : Type 0 where
  pub store : Store
  pub calls : Calls
  pub registry : Registry
  pub sent : List (String × ℕ × Schedule)

pub data PushError : Type 0 where
  cp_offline envelope_rejected rate_limited : PushError

-- `socketFor`
abbrev pub socket_for : String → Registry → Option Socket
socket_for identity r = elim (lookup identity r.sockets) [
  | none ↦ none
  | some x ↦ if x.is_open then some x else none
]

abbrev pub identity_for : ℕ → Store → String
identity_for cp s = elim (lookup cp s.charging.cps) [ none ↦ "" | some x ↦ x.ocpp_identity ]

module _ (l : Limits) (cap_count timeout now : ℕ) where
  abbrev pub reject_envelope : ℕ → ℕ → Store → Store
  reject_envelope cp decision s =
      let lettered = put_letter cap_count now (push_event cp decision) "ENVELOPE_REJECTED" none s in
      record lettered {
        trail =
            audit_log now none "CHARGING_PROFILE" cp "ENVELOPE_REJECT" none
              (some (text "profile limit exceeds site cap")) s.trail;
      }

  abbrev pub reject_rate : ℕ → Store → Store
  reject_rate cp s = put_letter cap_count now (push_rate_event cp now) "RATE_LIMITED" none s

  -- The row is there: the rate of the socket is checked, and the profile sent.
  unfoldable pub send_profile :
      String
      → String
      → ℕ
      → PushRequest
      → Schedule
      → Socket
      → Plant
      → Outcome PushError String × Plant
  send_profile uid identity push_id q profile ws p =
      let times = recent 60000 now ws.push_times in
      let timed : Registry = record p.registry {
        sockets = insert identity (record ws { push_times = times }) p.registry.sockets;
      } in
      let call : Pending = record {
        action = "SetChargingProfile";
        cp_id = some q.cp_id;
        identity = some identity;
        push_id = some push_id;
        decision_id = some q.decision_id;
        deadline = 0;
        expects_status = true;
        resolves = false;
        rejects = false;
      } in
      if ltb 6 (length times)
      then (err rate_limited, record p { registry = timed; store = reject_rate q.cp_id p.store })
      else (
        ok uid,
        record {
          registry = timed;
          store = mark_push_sent now push_id p.store;
          calls = register_pending_call timeout now uid call p.calls;
          sent = push (uid, q.cp_id, profile) p.sent;
        },
      )

  -- The envelope has answered: the push is rejected, or its row recorded and the profile sent.
  unfoldable pub push_checked :
      String
      → String
      → PushRequest
      → Schedule
      → Socket
      → Outcome Period (Unit {0})
      → Plant
      → Outcome PushError String × Plant
  push_checked uid identity q profile ws (err _) p =
      (err envelope_rejected, record p { store = reject_envelope q.cp_id q.decision_id p.store })
  push_checked uid identity q profile ws (ok _) p =
      let r = record_profile_push l now (record q { profile_payload = some profile }) p.store in
      send_profile uid identity r.0.push_id q profile ws (record p { store = r.2 })

  -- `setChargingProfile`
  unfoldable pub set_charging_profile :
      String → PushRequest → Schedule → Plant → Outcome PushError String × Plant
  set_charging_profile uid q profile p =
      let identity = identity_for q.cp_id p.store in
      elim (socket_for identity p.registry) as (λ _. Outcome PushError String × Plant) [
        | none ↦ (err cp_offline, p)
        | some ws ↦
            push_checked uid identity q profile ws (envelope_check q.cp_id profile p.store) p
      ]
