-- ===== src/System.antt =====
-- The store of apps/api/src/db/store.js as clients drive it: a history is a list of calls with the
-- times at which they run. A call is one step; one that throws leaves what it wrote.
pub mod Invariant
pub mod History
pub mod Books
pub mod Accounts
use volt_hub_csms.Prelude.{ℕ, String, List, [], ◌∷◌, Option}
use volt_hub_csms.Prelude.Decimal.{Decimal}
use volt_hub_csms.State.{Store, ConnectorRef, Role, SessionState, Note}
use volt_hub_csms.Outbox.{Limits}
use volt_hub_csms.Booking.{create_reservation, cancel_reservation, expire_stale}
use volt_hub_csms.Metering.{TickRequest, record_tick}
use volt_hub_csms.Sessions.{StartRequest, start_session, transition, stop_session}
use volt_hub_csms.Wallets.{topup, pay_invoice}
use volt_hub_csms.Billing.{LocalTime, bill_session}

-- The calls, with their arguments.
pub data Call : Type 0 where
  create : ℕ → Option ℕ → ConnectorRef → Option ℕ → Option ℕ → Call
  cancel : ℕ → ℕ → Role → Option (List ℕ) → Call
  expire : Call
  start : StartRequest → Call
  transit : ℕ → SessionState → Option String → Call
  tick : TickRequest → Call
  stop : ℕ → Option String → Option Decimal → Call
  bill : ℕ → Call
  pay : ℕ → ℕ → Call
  fund : ℕ → Option Decimal → Note → Call

module _ (l : Limits) (local : ℕ → LocalTime) where
  -- The store after a call at a time, whether it returns or throws.
  unfoldable pub step : ℕ × Call → Store → Store
  step (now, create uid vehicle key from to) s =
      (create_reservation l now uid vehicle key from to s).1
  step (now, cancel rid actor role scope) s = (cancel_reservation l now rid actor role scope s).1
  step (now, expire) s = (expire_stale l now s).0
  step (now, start q) s = (start_session l now q s).1
  step (now, transit sid to reason) s = (transition l now sid to reason s).1
  step (now, tick q) s = (record_tick l now q s).1
  step (now, stop sid reason end_meter) s = (stop_session l now sid reason end_meter s).1
  step (now, bill sid) s = (bill_session local now sid s).1
  step (now, pay inv uid) s = (pay_invoice now inv uid s).1
  step (now, fund uid amount note) s = (topup now uid amount note s).1

  unfoldable pub run : List (ℕ × Call) → Store → Store
  run [] s = s
  run (c ∷ cs) s = run cs (step c s)
