-- ===== src/Controller/Envelope.antt =====
-- About the compiler of profiles and the envelope of apps/api/src/control/controller.js.
use volt_hub_csms.Prelude.{
  ℕ, zero, suc, ◌*◌, ◌/◌, ◌%◌, ◌≤◌, ◌<◌, ◌≢◌, ◌≡◌, refl, none, some, arith, nat_eq,
}
use volt_hub_csms.Prelude.Int.{pos}
use volt_hub_csms.Prelude.Lists.{find}
use volt_hub_csms.Prelude.Dict.{lookup}
use volt_hub_csms.Prelude.Outcome.{ok}
use volt_hub_csms.State.{Store, ChargePoint}
use volt_hub_csms.Grid.{site_cap_kw}
use volt_hub_csms.Controller.{
  compile_periods, compile_profile, envelope_check, exceeds, round_watts, clamped_kw,
}

-- A rounded power is within a capacity of whole watts.
round_watts-le :
    (cap dt e : ℕ) → cap % 1000 ≡ 0 → round_watts (clamped_kw (some cap) dt e) ≤ cap * 1000
round_watts-le cap dt e h = ground arith

periods_within :
    (cap dt n i : ℕ) (row : ℕ → ℕ)
    → cap % 1000 ≡ 0
    → find (exceeds (pos cap)) (compile_periods (some cap) dt row n i) ≡ none
unfolding compile_periods
periods_within cap dt zero i row h = refl
periods_within cap dt (suc n) i row h =
    ground (arith, round_watts-le cap dt (row i) h, periods_within cap dt n (suc i) row h)

-- A profile that is compiled under the capacity of its site passes the envelope, whatever the schedule and
-- whatever charge point it is for, where that capacity is a whole number of watts.
pub envelope_check-compile_profile :
    (cp cap dt horizon start : ℕ) (row : ℕ → ℕ) (x : ChargePoint) (s : Store)
    → lookup cp s.charging.cps ≡ some x
    → site_cap_kw x.station_id s.grid ≡ some (pos cap)
    → cap % 1000 ≡ 0
    → envelope_check cp (compile_profile (some cap) dt horizon start row) s ≡ ok tt
unfolding envelope_check compile_profile
envelope_check-compile_profile cp cap dt horizon start row x s there capped h =
    rw (there, envelope_check) (rw capped (rw (periods_within cap dt horizon 0 row h) refl))

-- Where it is not, and lies half a watt or more above one, a profile whose first slot uses all of it is
-- refused by the envelope: it was rounded up beyond the capacity.
pub envelope_check_refuses :
    (cp cap dt horizon start : ℕ) (row : ℕ → ℕ) (x : ChargePoint) (s : Store)
    → lookup cp s.charging.cps ≡ some x
    → site_cap_kw x.station_id s.grid ≡ some (pos cap)
    → 500 ≤ cap % 1000
    → 0 < horizon
    → cap ≤ row 0 / dt
    → envelope_check cp (compile_profile (some cap) dt horizon start row) s ≢ ok tt
unfolding envelope_check compile_profile compile_periods
envelope_check_refuses cp cap dt zero start row x s there capped h k m = absurd (omega arith)
envelope_check_refuses cp cap dt (suc n) start row x s there capped h k m =
    rw (there, envelope_check) (rw capped (ground arith))
