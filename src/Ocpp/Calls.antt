-- ===== src/Ocpp/Calls.antt =====
-- The calls that the CSMS sends to charge points and their answers, in apps/api/src/ocpp/gateway.js:
-- `registerPendingCall`, `cancelPendingCall`, `handleCsmsResult`, `sweepExpiredAcks` and
-- `enforcementSample`. The promise of a caller is the list `settled`: what it was given, by uid.
use volt_hub_csms.Prelude.{
  ℕ, suc, ◌+◌, Bool, true, false, not, ◌&&◌, ◌||◌, String, List, [], ◌∷◌, Option, none, some, leb,
  ◌==◌, nat_eq, text_comparable, if◌then◌else◌,
}
use volt_hub_csms.Prelude.Lists.{push}
use volt_hub_csms.Prelude.Decimal.{Decimal}
use volt_hub_csms.Prelude.Dict.{Dict, lookup, insert, erase}
use volt_hub_csms.State.{
  Store, Ack, accepted, refused, EventRef, ack_event, ack_timeout_event, Payload, csms_call,
  EnforcementTick, ProfilePush,
}
use volt_hub_csms.Outbox.{Limits}
use volt_hub_csms.Letters.{dead_letter}
use volt_hub_csms.Profiles.{set_push_ack, active_profile_for, scheduled_kw_at}
use volt_hub_csms.Control.{record_enforcement_tick, set_control}
use volt_hub_csms.Ocpp.Messages.{Json, str, obj, Fields, end, field}

-- An entry of `pendingCalls`. `resolves` and `rejects` say whether the sender left the callback.
pub record Pending : Type 0 where
  pub action : String
  pub cp_id : Option ℕ
  pub identity : Option String
  pub push_id : Option ℕ
  pub decision_id : Option ℕ
  pub deadline : ℕ
  pub expects_status : Bool
  pub resolves : Bool
  pub rejects : Bool

-- What a sender's promise became. An error has its code and its HTTP status.
pub data Settlement : Type 0 where
  resolved : Ack → Settlement
  rejected : String → ℕ → Settlement

-- The module's variables: `pendingCalls`, the counters, and what was settled.
pub record Calls : Type 0 where
  pub pending : Dict String Pending
  pub unknown_results : ℕ
  pub foreign_results : ℕ
  pub malformed_results : ℕ
  pub settled : List (String × Settlement)

-- An inbound CALLRESULT, with the `status` text of its payload, or CALLERROR, with its code.
pub data Answer : Type 0 where
  result_answer : Option String → Answer
  error_answer : Option String → Answer

-- `payload.status`, if it is a text
abbrev pub text_of : Json → Option String
text_of (str s) = some s
text_of _ = none

abbrev pub get_field : String → Fields → Option Json
get_field k end = none
get_field k (field h j fs) = if h == k then some j else get_field k fs

abbrev pub status_of : Json → Option String
status_of (obj fs) = elim (get_field "status" fs) [ none ↦ none | some j ↦ text_of j ]
status_of _ = none

-- The socket that an answer came from.
pub record Peer : Type 0 where
  pub identity : String
  pub cp_id : ℕ

-- `registerPendingCall`; a deadline that is none, or 0, is ten seconds from now.
unfoldable pub register_pending_call : ℕ → ℕ → String → Pending → Calls → Calls
register_pending_call timeout now uid p c = record c {
  pending =
      insert uid (record p { deadline = if p.deadline == 0 then now + timeout else p.deadline })
        c.pending;
}

-- `cancelPendingCall`
unfoldable pub cancel_pending_call : String → Calls → Calls
cancel_pending_call uid c = record c { pending = erase uid c.pending }

abbrev pub differs_text : Option String → String → Bool
differs_text none t = false
differs_text (some s) t = not (s == t)

abbrev pub differs_number : Option ℕ → ℕ → Bool
differs_number none n = false
differs_number (some m) n = not (m == n)

-- `identityMismatch || cpMismatch`
abbrev pub is_foreign : Pending → Peer → Bool
is_foreign p from = differs_text p.identity from.identity || differs_number p.cp_id from.cp_id

-- `ACCEPTED_STATUS.has(status)`
abbrev pub is_accepted_status : String → Bool
is_accepted_status s =
    s == "Accepted" || s == "Unlocked" || s == "Scheduled" || s == "RebootRequired"

abbrev pub ack_of_status : String → Ack
ack_of_status s = if s == "Accepted" then accepted else refused s

-- What an answer is taken for: the ack, and whether it is malformed.
unfoldable pub ack_for : Pending → Answer → Ack
ack_for p (error_answer _) = refused "CALLERROR"
ack_for p (result_answer (some s)) =
    if s == ""
    then refused (if p.expects_status then "MALFORMED" else "RESULT")
    else ack_of_status s
ack_for p (result_answer none) = refused (if p.expects_status then "MALFORMED" else "RESULT")

-- `!status && meta.expectsStatus !== false`
abbrev pub is_malformed : Pending → Answer → Bool
is_malformed p (error_answer _) = false
is_malformed p (result_answer none) = p.expects_status
is_malformed p (result_answer (some s)) = s == "" && p.expects_status

abbrev pub or_text : Option String → String → String
or_text none d = d
or_text (some s) d = if s == "" then d else s

module _ (upper : String → String) where
  -- The reason of the dead letter of an answer, if it has one; `upper` is `toUpperCase`.
  unfoldable pub letter_reason : Pending → Answer → Option String
  letter_reason p (error_answer code) = some (or_text code "CALLERROR")
  letter_reason p (result_answer none) = if p.expects_status then some "MISSING_STATUS" else none
  letter_reason p (result_answer (some s)) =
      if s == ""
      then (if p.expects_status then some "MISSING_STATUS" else none)
      else if is_accepted_status s
      then none
      else some (upper s)

abbrev pub call_payload : Pending → Payload
call_payload p = csms_call p.action p.cp_id p.decision_id

-- `store.deadLetter` as a change of the store.
unfoldable pub put_letter : ℕ → ℕ → EventRef → String → Option Payload → Store → Store
put_letter cap_count now ref reason payload s =
    set_control (dead_letter cap_count now ref reason payload s.control).1 s

abbrev pub acknowledge : Option ℕ → Ack → Store → Store
acknowledge none ack s = s
acknowledge (some id) ack s = set_push_ack id ack s

-- What the sender is told of an answer: the code of an error, with status 502.
abbrev pub answer_code : Answer → String
answer_code (error_answer code) = or_text code "CALLERROR"
answer_code (result_answer _) = "MALFORMED_RESULT"

abbrev pub is_error : Answer → Bool
is_error (error_answer _) = true
is_error (result_answer _) = false

unfoldable pub settlement_of : Pending → Answer → Option Settlement
settlement_of p a =
    let failed = is_malformed p a || is_error a in
    if p.resolves
    then (if failed && p.rejects
        then some (rejected (answer_code a) 502)
        else some (resolved (ack_for p a)))
    else if is_error a && p.rejects
    then some (rejected (answer_code a) 502)
    else none

abbrev pub settle_call : String → Option Settlement → Calls → Calls
settle_call uid none c = c
settle_call uid (some x) c = record c { settled = push (uid, x) c.settled }

-- What `handleCsmsResult` returns: not handled, an answer of another charge point, or the ack.
pub data Handled : Type 0 where
  unknown mismatch : Handled
  handled : Ack → Handled

module _ (upper : String → String) (cap_count now : ℕ) where
  -- The letter of an answer to `key`, if it has one.
  abbrev pub letter_for : String → Option String → Pending → Store → Store
  letter_for key none p s = s
  letter_for key (some reason) p s =
      put_letter cap_count now (ack_event key) reason (some (call_payload p)) s

  -- The answer to a call of this peer. The letters of the source are written before or after the
  -- ack of the push, a table of its own.
  unfoldable pub correlate : String → Pending → Answer → Calls × Store → Handled × Calls × Store
  correlate key p a (c, s) =
      let forgotten : Calls = record c {
        pending = erase key c.pending;
        malformed_results =
            if is_malformed p a then suc c.malformed_results else c.malformed_results;
      } in
      (
        handled (ack_for p a),
        settle_call key (settlement_of p a) forgotten,
        acknowledge p.push_id (ack_for p a) (letter_for key (letter_reason upper p a) p s),
      )

  -- `handleCsmsResult`, with the call that stands under the uid.
  unfoldable pub answer_call :
      String → Answer → Peer → Option Pending → Calls × Store → Handled × Calls × Store
  answer_call key a from none (c, s) =
      (unknown, record c { unknown_results = suc c.unknown_results }, s)
  answer_call key a from (some p) (c, s) =
      if is_foreign p from
      then (mismatch, record c { foreign_results = suc c.foreign_results }, s)
      else correlate key p a (c, s)

  unfoldable pub handle_csms_result :
      String → Answer → Peer → Calls × Store → Handled × Calls × Store
  handle_csms_result key a from w = answer_call key a from (lookup key w.0.pending) w

  -- One expired call of `sweepExpiredAcks`.
  abbrev pub time_out : String → Pending → Calls × Store → Calls × Store
  time_out uid p (c, s) = (
    settle_call uid (if p.rejects then some (rejected "CP_TIMEOUT" 504) else none)
        (record c { pending = erase uid c.pending }),
    put_letter cap_count now (ack_timeout_event uid) "ACK_TIMEOUT" (some (call_payload p))
        (acknowledge p.push_id (refused "TIMEOUT") s),
  )

  -- The loop of `sweepExpiredAcks` over the calls, with the uids of the expired ones.
  unfoldable pub sweep : Dict String Pending → Calls × Store → List String × Calls × Store
  sweep [] w = ([], w.0, w.1)
  sweep ((uid, p) ∷ ps) w =
      let rest = sweep ps (if leb p.deadline now then time_out uid p w else w) in
      ((if leb p.deadline now then uid ∷ rest.0 else rest.0), rest.1, rest.2)

  unfoldable pub sweep_expired_acks : Calls × Store → List String × Calls × Store
  sweep_expired_acks w = sweep w.0.pending w

-- `push ? push.decision_id : null`
abbrev pub decision_of : Option ProfilePush → Option ℕ
decision_of none = none
decision_of (some p) = some p.decision_id

-- `enforcementSample`; the tick is recorded only where a profile is in force.
unfoldable pub enforcement_sample :
    Limits → ℕ → ℕ → Option ℕ → Option Decimal → ℕ → Store → Option EnforcementTick × Store
enforcement_sample l now cp sid power ts s = elim (scheduled_kw_at cp ts s.control) [
  | none ↦ (none, s)
  | some scheduled ↦
      let t =
        record_enforcement_tick l now cp sid (decision_of (active_profile_for cp s.control))
          scheduled power (some ts) s in
      (some t.0, t.1)
]
