-- ===== src/Ocpp/SmartCharging/Safety.antt =====
-- About the profiles that are sent, in apps/api/src/ocpp/smart-charging.js.
use volt_hub_csms.Prelude.{
  ℕ, suc, ◌≡◌, refl, sym, ap, ◌∙◌, Bool, true, false, String, List, [], ◌∷◌, none, some, arith, ltb,
  nat_eq, text_comparable, Bool-cases, Option-cases, inl, inr,
}
use volt_hub_csms.Prelude.Lists.{any, find, push, length}
use volt_hub_csms.Prelude.Dict.{lookup, values}
use volt_hub_csms.Prelude.Decimal.{Decimal}
use volt_hub_csms.Prelude.Outcome.{Outcome, ok, err}
use volt_hub_csms.State.{
  Store, watts, Schedule, Period, ChargePoint, ProfilePush, profile_pushed, push_recorded,
}
use volt_hub_csms.Outbox.{Limits}
use volt_hub_csms.Store.{emit}
use volt_hub_csms.Control.{set_control}
use volt_hub_csms.Grid.{site_cap_kw}
use volt_hub_csms.Profiles.{
  same_push, new_push, put_push, PushRequest, record_profile_push, mark_push_sent,
}
use volt_hub_csms.Controller.{envelope_check, exceeds}
use volt_hub_csms.Schedule.Sorting.{All}
use volt_hub_csms.Ocpp.Calls.{put_letter}
use volt_hub_csms.Ocpp.Sockets.{Socket, recent}
use volt_hub_csms.Ocpp.SmartCharging.{
  Plant, socket_for, identity_for, reject_envelope, reject_rate, send_profile, push_checked,
  set_charging_profile,
}

-- A profile in watts none of whose periods is above the capacity of the site of the charge point, if it has one, by
-- more than a millionth of a watt. The envelope itself never reads the unit, so the unit is asked for here.
abbrev pub IsWithinCap : Store → ℕ → Schedule → Type 0
IsWithinCap s cp profile =
    (profile.rate_unit ≡ watts)
    × ((x : ChargePoint) (cap : Decimal)
        → lookup cp s.charging.cps ≡ some x
        → site_cap_kw x.station_id s.grid ≡ some cap
        → any (exceeds cap) profile.periods ≡ false)

-- Every profile that was sent.
abbrev pub IsSafe : Plant → Type 0
IsSafe p = All (λ e. IsWithinCap p.store e.1 e.2) p.sent

any-find : (p : Period → Bool) (xs : List Period) → find p xs ≡ none → any p xs ≡ false
any-find p [] h = refl
any-find p (x ∷ xs) h = ground (arith, any-find p xs)

envelope_check-IsWithinCap :
    (cp : ℕ) (profile : Schedule) (s : Store)
    → profile.rate_unit ≡ watts
    → envelope_check cp profile s ≡ ok tt
    → IsWithinCap s cp profile
unfolding envelope_check
envelope_check-IsWithinCap cp profile s unit h = (
  unit,
  λ x cap there capped. any-find (exceeds cap) profile.periods (ground (arith, there, capped, h)),
)

module _ (l : Limits) (cap_count timeout now : ℕ) where
  -- The charge points and the grid stay as they are.
  abbrev Same : Store → Store → Type 0
  Same s t = (t.charging ≡ s.charging) × (t.grid ≡ s.grid)

  record_profile_push-Same :
      (q : PushRequest) (s : Store) → Same s (record_profile_push l now q s).2
  unfolding record_profile_push
  record_profile_push-Same q s =
      elim (find (same_push q.cp_id q.decision_id) (values s.control.pushes))
        as (λ o.
          Same s
            (elim o as (λ _. ProfilePush × Bool × Store) [
              | some found ↦ (found, true, s)
              | none ↦ (
                new_push l now q s.control,
                false,
                set_control
                    (record (put_push (new_push l now q s.control) s.control) {
                      push_seq = suc s.control.push_seq;
                    })
                    (emit l now (profile_pushed (suc s.control.push_seq))
                      (push_recorded (suc s.control.push_seq) q.cp_id q.decision_id
                        q.payload_sha256)
                      s),
              )
            ]).2) [ none ↦ (refl, refl) | some found ↦ (refl, refl) ]

  mark_push_sent-Same : (id : ℕ) (s : Store) → Same s (mark_push_sent now id s)
  unfolding mark_push_sent
  mark_push_sent-Same id s = ground arith

  reject_envelope-Same :
      (cp decision : ℕ) (s : Store) → Same s (reject_envelope l cap_count timeout now cp decision s)
  unfolding put_letter
  reject_envelope-Same cp decision s = (refl, refl)

  reject_rate-Same : (cp : ℕ) (s : Store) → Same s (reject_rate l cap_count timeout now cp s)
  unfolding put_letter
  reject_rate-Same cp s = (refl, refl)

  IsWithinCap-Same :
      (s t : Store) (cp : ℕ) (profile : Schedule)
      → Same s t
      → IsWithinCap s cp profile
      → IsWithinCap t cp profile
  IsWithinCap-Same s t cp profile same h = (
    h.0,
    λ x cap there capped.
        h.1 x cap (ap (λ ch. lookup cp ch.cps) (sym same.0) ∙ there)
          (ap (λ g. site_cap_kw x.station_id g) (sym same.1) ∙ capped),
  )

  All-Same :
      (s t : Store) (sent : List (String × ℕ × Schedule))
      → Same s t
      → All (λ e. IsWithinCap s e.1 e.2) sent
      → All (λ e. IsWithinCap t e.1 e.2) sent
  All-Same s t [] same h = tt
  All-Same s t (e ∷ es) same h = (IsWithinCap-Same s t e.1 e.2 same h.0, All-Same s t es same h.1)

  All-push :
      (s : Store) (sent : List (String × ℕ × Schedule)) (e : String × ℕ × Schedule)
      → All (λ e. IsWithinCap s e.1 e.2) sent
      → IsWithinCap s e.1 e.2
      → All (λ e. IsWithinCap s e.1 e.2) (push e sent)
  All-push s [] e h k = (k, tt)
  All-push s (x ∷ xs) e h k = (h.0, All-push s xs e h.1 k)

  send_profile-IsSafe :
      (uid identity : String) (id : ℕ) (q : PushRequest) (profile : Schedule) (ws : Socket)
      (p : Plant)
      → IsSafe p
      → IsWithinCap p.store q.cp_id profile
      → IsSafe (send_profile l cap_count timeout now uid identity id q profile ws p).1
  unfolding send_profile
  send_profile-IsSafe uid identity id q profile ws p h k =
      elim (Bool-cases (ltb 6 (length (recent 60000 now ws.push_times)))) [
        | inl many ↦ rw many (
            All-Same p.store (reject_rate l cap_count timeout now q.cp_id p.store) p.sent
              (reject_rate-Same q.cp_id p.store) h)
        | inr few ↦
            let after = mark_push_sent now id p.store in
            let same = mark_push_sent-Same id p.store in
            rw few (
              All-push after p.sent (uid, q.cp_id, profile) (All-Same p.store after p.sent same h)
                (IsWithinCap-Same p.store after q.cp_id profile same k))
      ]

  push_checked-IsSafe :
      (uid identity : String) (q : PushRequest) (profile : Schedule) (ws : Socket)
      (o : Outcome Period (Unit {0})) (p : Plant)
      → profile.rate_unit ≡ watts
      → envelope_check q.cp_id profile p.store ≡ o
      → IsSafe p
      → IsSafe (push_checked l cap_count timeout now uid identity q profile ws o p).1
  unfolding push_checked
  push_checked-IsSafe uid identity q profile ws (err x) p unit e h =
      All-Same p.store (reject_envelope l cap_count timeout now q.cp_id q.decision_id p.store)
        p.sent (reject_envelope-Same q.cp_id q.decision_id p.store) h
  push_checked-IsSafe uid identity q profile ws (ok x) p unit e h =
      let q' : PushRequest = record q { profile_payload = some profile } in
      let r = record_profile_push l now q' p.store in
      let same = record_profile_push-Same q' p.store in
      send_profile-IsSafe uid identity r.0.push_id q profile ws (record p { store = r.2 })
        (All-Same p.store r.2 p.sent same h)
        (IsWithinCap-Same p.store r.2 q.cp_id profile same
          (envelope_check-IsWithinCap q.cp_id profile p.store unit e))

  -- A profile in watts, however its periods came about, and whatever was pushed before: after a push, refused or not,
  -- every profile that was sent to a charge point is in watts and has no period above the capacity of that
  -- charge point's site by more than a millionth of a watt, where this held of those that were sent before.
  pub set_charging_profile-IsSafe :
      (uid : String) (q : PushRequest) (profile : Schedule) (p : Plant)
      → profile.rate_unit ≡ watts
      → IsSafe p
      → IsSafe (set_charging_profile l cap_count timeout now uid q profile p).1
  unfolding set_charging_profile
  set_charging_profile-IsSafe uid q profile p unit h =
      elim (Option-cases (socket_for (identity_for q.cp_id p.store) p.registry)) [
        | inl offline ↦ rw (offline, set_charging_profile) h
        | inr (ws, online) ↦
            rw (online, set_charging_profile)
              (push_checked-IsSafe uid (identity_for q.cp_id p.store) q profile ws
                (envelope_check q.cp_id profile p.store) p unit refl h)
      ]
