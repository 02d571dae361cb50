-- ===== src/Ocpp/Dispatch.antt =====
-- Commands on their way to a charge point: `send` of apps/api/src/ocpp/commands.js, `stopTransaction` and
-- `startTransaction` of apps/api/src/ocpp/gateway.js, and `clearChargingProfile` and `getCompositeSchedule` of
-- apps/api/src/ocpp/smart-charging.js. A frame is what the socket is given; the uid of a call is an argument.
use volt_hub_csms.Prelude.{
  ℕ, ◌+◌, ◌≡◌, refl, Bool, true, false, String, List, [], ◌∷◌, Option, none, some, arith, ltb, ◌==◌,
  nat_eq, text_comparable, if◌then◌else◌, subst, Bool-cases, inl, inr,
}
use volt_hub_csms.Prelude.Decimal.{whole}
use volt_hub_csms.Prelude.Dict.{lookup}
use volt_hub_csms.Prelude.Outcome.{Outcome, ok, err}
use volt_hub_csms.State.{Store}
use volt_hub_csms.Schedule.Sorting.{All}
use volt_hub_csms.Ocpp.Messages.{num, str, obj, Fields, end, field, Message, call_message}
use volt_hub_csms.Ocpp.Calls.{
  Pending, Calls, rejected, is_accepted_status, register_pending_call, cancel_pending_call,
  settle_call,
}
use volt_hub_csms.Ocpp.Sockets.{Registry}
use volt_hub_csms.Ocpp.SmartCharging.{socket_for}
use volt_hub_csms.Ocpp.Commands.{
  Action, reset, unlock_connector, change_availability, get_configuration, change_configuration,
  trigger_message, reserve_now, cancel_booking, clear_cache, data_transfer, Command,
  accepted_statuses, is_among,
}

pub data DispatchError : Type 0 where
  not_found not_connected : DispatchError

-- A call that nobody awaits.
abbrev pub loose_call : String → String → Pending
loose_call action identity = record {
  action = action;
  cp_id = none;
  identity = some identity;
  push_id = none;
  decision_id = none;
  deadline = 0;
  expects_status = true;
  resolves = false;
  rejects = false;
}

abbrev pub optional_number : String → Option ℕ → Fields → Fields
optional_number k none fs = fs
optional_number k (some n) fs = field k (num (whole n)) fs

module _ (timeout now : ℕ) where
  unfoldable pub call_out :
      String → String → String → Fields → Registry × Calls → Outcome DispatchError Message × Calls
  call_out uid identity action payload (r, c) =
      elim (socket_for identity r) as (λ _. Outcome DispatchError Message × Calls) [
        | none ↦ (err not_connected, c)
        | some _ ↦ (
          ok (call_message (str uid) (str action) (obj payload)),
          register_pending_call timeout now uid (loose_call action identity) c,
        )
      ]

  abbrev pub remote_stop :
      String → String → ℕ → Registry × Calls → Outcome DispatchError Message × Calls
  remote_stop uid identity sid =
      call_out uid identity "RemoteStopTransaction" (field "transactionId" (num (whole sid)) end)

  abbrev pub remote_start :
      String → String → String → ℕ → Registry × Calls → Outcome DispatchError Message × Calls
  remote_start uid identity tag connector =
      call_out uid identity "RemoteStartTransaction"
        (field "idTag" (str tag) (field "connectorId" (num (whole connector)) end))

  abbrev pub clear_charging_profile :
      String
      → String
      → Option ℕ
      → Option ℕ
      → Registry × Calls
      → Outcome DispatchError Message × Calls
  clear_charging_profile uid identity profile connector =
      call_out uid identity "ClearChargingProfile"
        (optional_number "id" profile (optional_number "connectorId" connector end))

  abbrev pub get_composite_schedule :
      String → String → ℕ → ℕ → Registry × Calls → Outcome DispatchError Message × Calls
  get_composite_schedule uid identity connector duration =
      call_out uid identity "GetCompositeSchedule" (
        field "connectorId" (num (whole connector))
          (field "duration" (num (whole duration)) (field "unit" (str "W") end)))

  -- `Math.max(50, Number(timeoutMs) || ACK_TIMEOUT_MS)`
  abbrev pub wait_ms : Option ℕ → ℕ
  wait_ms wanted =
      let ms : ℕ = elim wanted [ none ↦ timeout | some n ↦ if n == 0 then timeout else n ] in
      if ltb ms 50 then 50 else ms

abbrev pub action_name : Action → String
action_name Action.reset = "Reset"
action_name Action.unlock_connector = "UnlockConnector"
action_name Action.change_availability = "ChangeAvailability"
action_name Action.get_configuration = "GetConfiguration"
action_name Action.change_configuration = "ChangeConfiguration"
action_name Action.trigger_message = "TriggerMessage"
action_name Action.reserve_now = "ReserveNow"
action_name Action.cancel_booking = "CancelReservation"
action_name Action.clear_cache = "ClearCache"
action_name Action.data_transfer = "DataTransfer"

module _ (timeout now : ℕ) where
  abbrev pub awaited_call : ℕ → String → Option ℕ → Command → Pending
  awaited_call cp identity wait q = record {
    action = action_name q.action;
    cp_id = some cp;
    identity = some identity;
    push_id = none;
    decision_id = none;
    deadline = now + wait_ms timeout now wait;
    expects_status = q.expects_status;
    resolves = true;
    rejects = true;
  }

  -- `send`, up to its promise.
  unfoldable pub send :
      String
      → ℕ
      → Option ℕ
      → Command
      → Store
      → Registry × Calls
      → Outcome DispatchError Message × Calls
  send uid cp wait q s (r, c) =
      elim (lookup cp s.charging.cps) as (λ _. Outcome DispatchError Message × Calls) [
        | none ↦ (err not_found, c)
        | some x ↦
            elim (socket_for x.ocpp_identity r) as (λ _. Outcome DispatchError Message × Calls) [
              | none ↦ (err not_connected, c)
              | some _ ↦ (
                ok (call_message (str uid) (str (action_name q.action)) (obj q.payload)),
                register_pending_call timeout now uid (awaited_call cp x.ocpp_identity wait q) c,
              )
            ]
      ]

-- The timer of `send`.
abbrev pub give_up : String → Calls → Calls
give_up uid c = settle_call uid (some (rejected "CP_TIMEOUT" 504)) (cancel_pending_call uid c)

-- Whether `send` takes an answer for a success; an answer without a status is one.
unfoldable pub accepts_answer : Action → Option String → Bool
accepts_answer a none = true
accepts_answer a (some s) = is_among s (accepted_statuses a)

abbrev AllAccepted : List String → Type 0
AllAccepted = All (λ t. is_accepted_status t ≡ true)

is_among-AllAccepted :
    (s : String) (ts : List String)
    → AllAccepted ts
    → is_among s ts ≡ true
    → is_accepted_status s ≡ true
is_among-AllAccepted s [] h k = cc
is_among-AllAccepted s (t ∷ ts) h k = elim (Bool-cases (t == s)) [
  | inl same ↦ subst (λ u. is_accepted_status u ≡ true) ((text_comparable.same_iff t s).0 same) h.0
  | inr other ↦ is_among-AllAccepted s ts h.1 (ground (arith, other, k))
]

accepted_statuses-AllAccepted : (a : Action) → AllAccepted (accepted_statuses a)
unfolding accepted_statuses
accepted_statuses-AllAccepted reset = (refl, tt)
accepted_statuses-AllAccepted unlock_connector = (refl, tt)
accepted_statuses-AllAccepted change_availability = (refl, (refl, tt))
accepted_statuses-AllAccepted get_configuration = tt
accepted_statuses-AllAccepted change_configuration = (refl, (refl, tt))
accepted_statuses-AllAccepted trigger_message = (refl, tt)
accepted_statuses-AllAccepted reserve_now = (refl, tt)
accepted_statuses-AllAccepted cancel_booking = (refl, tt)
accepted_statuses-AllAccepted clear_cache = (refl, tt)
accepted_statuses-AllAccepted data_transfer = (refl, tt)

-- A status that `send` takes for a success of a command is one that the gateway writes no dead letter for.
pub accepts_answer-is_accepted_status :
    (a : Action) (s : String) → accepts_answer a (some s) ≡ true → is_accepted_status s ≡ true
unfolding accepts_answer
accepts_answer-is_accepted_status a s h =
    is_among-AllAccepted s (accepted_statuses a) (accepted_statuses-AllAccepted a) h
