-- ===== src/Profiles.antt =====
-- Charging profiles of apps/api/src/db/store.js: `recordProfilePush`, `setPushAck`, `markPushSent`,
-- `activeProfileFor` and `scheduledKwAt`. A push payload is taken as its parsed schedule.
pub mod InForce
use volt_hub_csms.Prelude.{
  ℕ, suc, ◌+◌, ◌-◌, ◌*◌, ◌/◌, Bool, true, false, not, ◌&&◌, ◌||◌, String, List, [], ◌∷◌, ◌++◌,
  Option, none, some, ltb, leb, ◌==◌, nat_eq, if◌then◌else◌,
}
use volt_hub_csms.Prelude.Lists.{push, filter, find, length}
use volt_hub_csms.Prelude.Int.{ℤ, pos, negsuc, ◌-ℤ◌}
use volt_hub_csms.Prelude.Decimal.{Decimal, to_fixed4, div_whole}
use volt_hub_csms.Prelude.Dict.{values, lookup, insert}
use volt_hub_csms.Prelude.Outcome.{Outcome, ok, err, ◌>>=◌, ◌>>◌, throw_if, or_throw, commit}
use volt_hub_csms.State.{
  Store, Control, Decision, Certificate, CertStatus, eroded, met, Reason, infeasible, given,
  RateUnit, amps, watts, Period, Schedule, Ack, accepted, refused, ProfilePush, EnforcementTick,
  Failure, missing, e_illegal_transition, DedupeKey, decision_made, cert_issued, cert_moved,
  profile_pushed, enforcement, Payload, decision_committed, cert_lifecycle, push_recorded,
  enforcement_tick,
}
use volt_hub_csms.Outbox.{Limits}
use volt_hub_csms.Store.{Result, emit}
use volt_hub_csms.Control.{or_value, set_control}

-- The arguments of `recordProfilePush`.
pub record PushRequest : Type 0 where
  pub decision_id : ℕ
  pub cp_id : ℕ
  pub profile_payload : Option Schedule
  pub payload_sha256 : Option ℕ
  pub clamped : Bool

-- `p.cp_id === Number(cpId) && p.decision_id === Number(decisionId)`
abbrev pub same_push : ℕ → ℕ → ProfilePush → Bool
same_push cp decision p = p.cp_id == cp && p.decision_id == decision

-- `!p.ack_result || p.ack_result === 'Accepted'`
abbrev pub not_refused : Option Ack → Bool
not_refused none = true
not_refused (some accepted) = true
not_refused (some (refused _)) = false

abbrev pub was_sent : Option ℕ → Bool
was_sent none = false
was_sent (some _) = true

abbrev pub is_candidate_push : ℕ → ProfilePush → Bool
is_candidate_push cp p = p.cp_id == cp && was_sent p.sent_at && not_refused p.ack_result

-- `if (!best || p.push_id > best.push_id) best = p;`
abbrev pub later_push : Option ProfilePush → ProfilePush → Option ProfilePush
later_push none p = some p
later_push (some b) p = if ltb b.push_id p.push_id then some p else some b

unfoldable pub best_push : ℕ → Option ProfilePush → List ProfilePush → Option ProfilePush
best_push cp best [] = best
best_push cp best (p ∷ ps) =
    let next = if is_candidate_push cp p then later_push best p else best in best_push cp next ps

-- `s.activeProfileFor`
abbrev pub active_profile_for : ℕ → Control → Option ProfilePush
active_profile_for cp c = best_push cp none (values c.pushes)

-- `.sort((a, b) => a.startPeriod - b.startPeriod)`, a stable sort.
abbrev pub insert_period : Period → List Period → List Period
insert_period p [] = p ∷ []
insert_period p (q ∷ qs) =
    let rest = insert_period p qs in
    if leb p.start_period q.start_period then p ∷ q ∷ qs else q ∷ rest

unfoldable pub sort_periods : List Period → List Period
sort_periods [] = []
sort_periods (p ∷ ps) = insert_period p (sort_periods ps)

-- `.pop()`
abbrev pub last_period : Option Period → List Period → Option Period
last_period best [] = best
last_period best (p ∷ ps) = last_period (some p) ps

-- The period in force some milliseconds after the start of a schedule.
abbrev pub current_period : ℕ → List Period → Option Period
current_period elapsed_ms ps =
    last_period none (filter (λ p. leb (p.start_period * 1000) elapsed_ms) (sort_periods ps))

abbrev pub in_watts : Schedule → Bool
in_watts sch = elim sch.rate_unit [ amps ↦ false | watts ↦ true ]

-- The limit of a schedule that began at a time, in kW to four places.
unfoldable pub scheduled_limit : ℕ → ℕ → Schedule → Option Decimal
scheduled_limit push_at at_ms sch =
    let began : ℕ = or_value sch.start_schedule push_at in
    let cur = current_period (at_ms - began) sch.periods in
    if in_watts sch
    then elim cur [ none ↦ none | some p ↦ some (to_fixed4 (div_whole p.limit 1000)) ]
    else none

-- `s.scheduledKwAt`; `at_ms` is the time asked for, and the clock's if it is missing.
unfoldable pub scheduled_kw_at : ℕ → ℕ → Control → Option Decimal
scheduled_kw_at cp at_ms c = elim (active_profile_for cp c) [
  | none ↦ none
  | some p ↦ elim p.profile_payload [ none ↦ none | some sch ↦ scheduled_limit p.push_at at_ms sch ]
]

abbrev pub put_push : ProfilePush → Control → Control
put_push p c = record c { pushes = insert p.push_id p c.pushes }

-- `s.setPushAck` and `s.markPushSent`; an id that is not there changes nothing.
unfoldable pub set_push_ack : ℕ → Ack → Store → Store
set_push_ack id ack s = elim (lookup id s.control.pushes) [
  | none ↦ s
  | some p ↦ set_control (put_push (record p { ack_result = some ack }) s.control) s
]

unfoldable pub mark_push_sent : ℕ → ℕ → Store → Store
mark_push_sent now id s = elim (lookup id s.control.pushes) [
  | none ↦ s
  | some p ↦ set_control (put_push (record p { sent_at = some now }) s.control) s
]

module _ (l : Limits) (now : ℕ) where
  abbrev pub new_push : PushRequest → Control → ProfilePush
  new_push q c = record {
    push_id = suc c.push_seq;
    decision_id = q.decision_id;
    cp_id = q.cp_id;
    profile_payload = q.profile_payload;
    payload_sha256 = q.payload_sha256;
    clamped = q.clamped;
    push_at = now;
    ack_result = none;
    sent_at = none;
  }

  -- `s.recordProfilePush`, with whether the row was there already.
  unfoldable pub record_profile_push : PushRequest → Store → ProfilePush × Bool × Store
  record_profile_push q s =
      let p = new_push q s.control in
      let id = p.push_id in
      elim (find (same_push q.cp_id q.decision_id) (values s.control.pushes)) [
        | some found ↦ (found, true, s)
        | none ↦ (
          p,
          false,
          set_control (record (put_push p s.control) { push_seq = id })
              (emit l now (profile_pushed id)
                (push_recorded id q.cp_id q.decision_id q.payload_sha256) s),
        )
      ]
