-- ===== src/System/History.antt =====
-- About connectors, windows and sessions in a history of calls on apps/api/src/db/store.js.
use volt_hub_csms.Prelude.{ℕ, ◌≡◌, List, [], ◌∷◌, Option, arith, nat_eq}
use volt_hub_csms.Prelude.Decimal.{Decimal}
use volt_hub_csms.State.{Store, Charging, Note}
use volt_hub_csms.Outbox.{Limits}
use volt_hub_csms.Booking.Holds.{IsHeld}
use volt_hub_csms.Booking.HoldsKept.{
  create_reservation-IsHeld, cancel_reservation-IsHeld, expire_stale-IsHeld,
}
use volt_hub_csms.Booking.Windows.{
  IsDisjoint, create_reservation-IsDisjoint, cancel_reservation-IsDisjoint, expire_stale-IsDisjoint,
}
use volt_hub_csms.Sessions.Keeps.{start_session-IsHeld, start_session-IsDisjoint}
use volt_hub_csms.Sessions.Moves.{
  transition-IsHeld, transition-reservations, stop_session-IsHeld, stop_session-reservations,
  record_tick-IsHeld, record_tick-reservations,
}
use volt_hub_csms.Sessions.Sound.{IsSound}
use volt_hub_csms.Sessions.SoundKept.{
  create_reservation-IsSound, cancel_reservation-IsSound, expire_stale-IsSound,
  start_session-IsSound,
}
use volt_hub_csms.Sessions.SoundMeters.{
  transition-IsSound, record_tick-IsSound, stop_session-IsSound,
}
use volt_hub_csms.Wallets.{topup, pay_invoice}
use volt_hub_csms.Billing.{LocalTime}
use volt_hub_csms.System.{
  Call, create, cancel, expire, start, transit, tick, stop, bill, pay, fund, step, run,
}
use volt_hub_csms.System.Invariant.{
  bill_session-IsHeld, bill_session-reservations, bill_session-IsSound,
}

-- Reservations and sessions: connectors agree with their bookings, the held windows are disjoint, and one
-- session at most is active on a connector.
pub record IsCharging (ch : Charging) : Type 0 where
  pub held : IsHeld ch
  pub windows : IsDisjoint ch.reservations
  pub sound : IsSound ch

module _ (l : Limits) (local : ℕ → LocalTime) where
  -- Money calls leave the charging tables alone.
  pub pay_charging :
      (now inv uid : ℕ) (s : Store) → (pay_invoice now inv uid s).1.charging ≡ s.charging
  unfolding pay_invoice
  pay_charging now inv uid s = ground arith

  pub fund_charging :
      (now uid : ℕ) (a : Option Decimal) (n : Note) (s : Store)
      → (topup now uid a n s).1.charging ≡ s.charging
  unfolding topup
  fund_charging now uid a n s = ground arith

  pub step-IsCharging :
      (c : ℕ × Call) (s : Store) → IsCharging s.charging → IsCharging (step l local c s).charging
  unfolding step
  step-IsCharging (now, create uid vehicle key from to) s v = record {
    held = create_reservation-IsHeld l now uid vehicle key from to s v.held;
    windows = create_reservation-IsDisjoint l now uid vehicle key from to s v.windows;
    sound = create_reservation-IsSound l now uid vehicle key from to s v.sound;
  }
  step-IsCharging (now, cancel rid actor role scope) s v = record {
    held = cancel_reservation-IsHeld l now rid actor role scope s v.held;
    windows = cancel_reservation-IsDisjoint l now rid actor role scope s v.held.table v.windows;
    sound = cancel_reservation-IsSound l now rid actor role scope s v.sound;
  }
  step-IsCharging (now, expire) s v = record {
    held = expire_stale-IsHeld l now s v.held;
    windows = expire_stale-IsDisjoint l now s v.held v.windows;
    sound = expire_stale-IsSound l now s v.sound;
  }
  step-IsCharging (now, start q) s v = record {
    held = start_session-IsHeld l now q s v.held;
    windows = start_session-IsDisjoint l now q s v.held v.windows;
    sound = start_session-IsSound l now q s v.sound;
  }
  step-IsCharging (now, transit sid to reason) s v = record {
    held = transition-IsHeld l now sid to reason s v.held;
    windows = rw (transition-reservations l now sid to reason s) v.windows;
    sound = transition-IsSound l now sid to reason s v.sound;
  }
  step-IsCharging (now, tick q) s v = record {
    held = record_tick-IsHeld l now q s v.held;
    windows = rw (record_tick-reservations l now q s) v.windows;
    sound = record_tick-IsSound l now q s v.sound;
  }
  step-IsCharging (now, stop sid reason end_meter) s v = record {
    held = stop_session-IsHeld l now sid reason end_meter s v.held;
    windows = rw (stop_session-reservations l now sid reason end_meter s) v.windows;
    sound = stop_session-IsSound l now sid reason end_meter s v.sound;
  }
  step-IsCharging (now, bill sid) s v = record {
    held = bill_session-IsHeld local now sid s v.held;
    windows = rw (bill_session-reservations local now sid s) v.windows;
    sound = bill_session-IsSound local now sid s v.sound;
  }
  step-IsCharging (now, pay inv uid) s v = rw (pay_charging now inv uid s) v
  step-IsCharging (now, fund uid amount note) s v = rw (fund_charging now uid amount note s) v

  -- From a store in which this holds, along every history of calls, refused ones included, no two
  -- held windows on one connector meet, a connector is RESERVED only while a booked window waits on
  -- it and AVAILABLE only while none does, and no two sessions are active on one connector, which
  -- is then OCCUPIED.
  pub run-IsCharging :
      (cs : List (ℕ × Call)) (s : Store)
      → IsCharging s.charging
      → IsCharging (run l local cs s).charging
  unfolding run
  run-IsCharging [] s v = v
  run-IsCharging (c ∷ cs) s v = run-IsCharging cs (step l local c s) (step-IsCharging c s v)
