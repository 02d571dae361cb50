-- ===== src/Store.antt =====
-- The helpers of `createStore` in apps/api/src/db/store.js that operations share: `auditLog`, `notify`,
-- `emitOutbox`, `stateEvents.push`, `getConnector`.
use volt_hub_csms.Prelude.{ℕ, suc, String, Option, none, some, ◌==◌, nat_eq, if◌then◌else◌}
use volt_hub_csms.Prelude.Lists.{push}
use volt_hub_csms.Prelude.Dict.{lookup, insert}
use volt_hub_csms.Prelude.Outcome.{Outcome, or_throw}
use volt_hub_csms.State.{
  Store, Trail, Charging, Payload, DedupeKey, AuditValue, Notice, ConnectorRef, ref_eq, Connector,
  ConnectorStatus, Cause, Failure, failure, invalid_connector,
}
use volt_hub_csms.Outbox.{Limits, emit_outbox}

-- `s.auditLog`
abbrev pub audit_log :
    ℕ → Option ℕ → String → ℕ → String → Option AuditValue → Option AuditValue → Trail → Trail
audit_log now actor entity id action o n t = record t {
  audit_seq = suc t.audit_seq;
  audit =
      push
        (record {
          audit_id = suc t.audit_seq;
          actor_user_id = actor;
          entity_name = entity;
          entity_id = id;
          action = action;
          old_value = o;
          new_value = n;
          created_at = now;
        })
        t.audit;
}

-- `s.notify`
abbrev pub notify : ℕ → ℕ → Notice → Trail → Trail
notify now uid payload t = record t {
  notif_seq = suc t.notif_seq;
  notifs =
      push
        (record {
          notification_id = suc t.notif_seq;
          user_id = uid;
          payload = payload;
          is_read = "N";
          created_at = now;
        })
        t.notifs;
}

-- `s.stateEvents.push`
abbrev pub push_state_event :
    ℕ → ConnectorRef → ConnectorStatus → ConnectorStatus → Cause → Option ℕ → Trail → Trail
push_state_event now key from to cause sid t = record t {
  state_events =
      push
        (record {
          ts = now;
          connector_ref = key;
          from_state = from;
          to_state = to;
          cause = cause;
          session_id = sid;
        })
        t.state_events;
}

-- What an operation returns: its result or the error thrown, and the store.
abbrev pub Result : Type 0 → Type 0
Result A = Outcome Failure A × Store

-- `s.emitOutbox`
abbrev pub emit : Limits → ℕ → DedupeKey → Payload → Store → Store
emit l now key payload s = record s { outbox = emit_outbox l now key payload s.outbox }

-- `x || null` and `if (x)` at an id: zero counts as missing.
abbrev pub truthy : Option ℕ → Option ℕ
truthy none = none
truthy (some n) = if n == 0 then none else some n

-- `s.getConnector`
abbrev pub get_connector : ConnectorRef → Charging → Outcome Failure Connector
get_connector key ch = or_throw (lookup key ch.connectors) (failure invalid_connector 404)

-- `c.status = to; c.last_state_change_at = now` on the connector `c` of `key`.
abbrev pub set_status : ℕ → ConnectorRef → ConnectorStatus → Connector → Charging → Charging
set_status now key to c ch = record ch {
  connectors = insert key (record c { status = to; last_state_change_at = now }) ch.connectors;
}
