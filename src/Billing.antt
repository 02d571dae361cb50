-- ===== src/Billing.antt =====
-- Billing of apps/api/src/db/store.js: `resolveBandPrice` and `billSession`. The weekday and the minute of
-- the day at which a time falls depend on the machine's time zone: they are an argument.
pub mod Bills
pub mod Once
use volt_hub_csms.Prelude.{
  ℕ, suc, ◌+◌, Bool, true, false, not, ◌&&◌, ◌||◌, List, [], ◌∷◌, ◌++◌, Option, none, some, ltb,
  leb, ◌==◌, nat_eq, if◌then◌else◌,
}
use volt_hub_csms.Prelude.Lists.{push, filter, find}
use volt_hub_csms.Prelude.Int.{pos, ◌+ℤ◌, ◌-ℤ◌, ltb_ℤ, max_ℤ}
use volt_hub_csms.Prelude.Decimal.{Decimal, whole, to_fixed2, to_fixed3, mul_fixed2}
use volt_hub_csms.Prelude.Dict.{lookup, insert}
use volt_hub_csms.Prelude.Outcome.{Outcome, ok, err, ◌>>=◌, ◌>>◌, throw_if, or_throw, commit}
use volt_hub_csms.State.{
  Store, Charging, Money, Session, SessionState, completed, BillingState, unbilled, billed, Invoice,
  InvoiceStatus, due, InvoiceLine, LineKind, energy, session_fee, Band, DayScope, all_days, weekday,
  weekend, Plan, Failure, missing, e_bill_conflict, e_billing_conflict, e_no_tariff_band, issued,
  invoice_issued,
}
use volt_hub_csms.Store.{Result, audit_log, notify}

-- `d.getDay()`, 0 on Sunday, and `d.getHours() * 60 + d.getMinutes()`.
pub record LocalTime : Type 0 where
  pub dow : ℕ
  pub mins : ℕ

abbrev pub in_scope : DayScope → ℕ → Bool
in_scope all_days dow = true
in_scope weekday dow = leb 1 dow && leb dow 5
in_scope weekend dow = dow == 0 || dow == 6

-- The end of a band: midnight and a close in the last minute are the end of the day.
abbrev pub band_end : ℕ → ℕ
band_end t = let e : ℕ = if t == 0 then 1440 else t in if leb 1439 e then 1440 else e

abbrev pub band_hit : ℕ → Band → Bool
band_hit mins b = leb b.start_time mins && ltb mins (band_end b.end_time)

abbrev pub is_candidate : ℕ → ℕ → Band → Bool
is_candidate plan_id dow b = b.plan_id == plan_id && in_scope b.day_scope dow

-- `s.resolveBandPrice`
unfoldable pub resolve_band_price : ℕ → LocalTime → List Band → Outcome Failure Decimal
resolve_band_price plan_id t bands = do
  b ← or_throw (find (band_hit t.mins) (filter (is_candidate plan_id t.dow) bands)) e_no_tariff_band
  ok b.price_per_kwh

abbrev pub is_completed : SessionState → Bool
is_completed completed = true
is_completed _ = false

abbrev pub is_unbilled : BillingState → Bool
is_unbilled unbilled = true
is_unbilled billed = false

abbrev pub or_zero : Option Decimal → Decimal
or_zero none = pos 0
or_zero (some x) = x

-- `Math.max((sess.end_meter_kwh ?? 0) - (sess.start_meter_kwh ?? 0), 0)`
abbrev pub energy_of : Session → Decimal
energy_of x = max_ℤ (or_zero x.end_meter_kwh -ℤ x.start_meter_kwh) (pos 0)

-- `plan ? +plan.session_fee : 0`
abbrev pub fee_of : ℕ → Money → Decimal
fee_of plan_id m = elim (lookup plan_id m.plans) [ none ↦ pos 0 | some p ↦ p.session_fee ]

-- The lines of an invoice: the energy, and the fee if there is one.
abbrev pub lines_for : ℕ → Decimal → Decimal → Decimal → List InvoiceLine
lines_for invoice_id kwh price fee =
    let line : InvoiceLine = record {
      invoice_id = invoice_id;
      line_no = 1;
      kind = energy;
      quantity = to_fixed3 kwh;
      unit_price = price;
      amount = mul_fixed2 kwh price;
    } in
    let fee_line : InvoiceLine = record {
      invoice_id = invoice_id;
      line_no = 2;
      kind = session_fee;
      quantity = whole 1;
      unit_price = fee;
      amount = fee;
    } in
    if ltb_ℤ (pos 0) fee then line ∷ fee_line ∷ [] else line ∷ []

abbrev pub billed_session : Session → Session
billed_session x = record x { billing_state = billed; energy_kwh = some (to_fixed3 (energy_of x)) }

module _ (local : ℕ → LocalTime) (now : ℕ) where
  unfoldable pub check_bill : ℕ → Store → Outcome Failure (Session × Decimal)
  check_bill sid s = do
    x ← or_throw (lookup sid s.charging.sessions) missing
    throw_if (not (is_completed x.state)) e_bill_conflict
    throw_if (not (is_unbilled x.billing_state)) e_billing_conflict
    price ← resolve_band_price x.tariff_plan_id (local x.started_at) s.money.bands
    ok (x, price)

  abbrev pub new_invoice : ℕ → Session → Decimal → Money → Invoice
  new_invoice sid x price m = record {
    invoice_id = suc m.inv_seq;
    session_id = sid;
    tariff_plan_id = x.tariff_plan_id;
    status = due;
    total = to_fixed2 (mul_fixed2 (energy_of x) price +ℤ fee_of x.tariff_plan_id m);
    issued_at = now;
  }

  unfoldable pub issue : ℕ → Session → Decimal → Money → Money
  issue sid x price m =
      let inv = new_invoice sid x price m in
      record m {
        inv_seq = inv.invoice_id;
        invoices = insert inv.invoice_id inv m.invoices;
        lines = m.lines ++ lines_for inv.invoice_id (energy_of x) price (fee_of x.tariff_plan_id m);
      }

  unfoldable pub mark_billed : Session → Charging → Charging
  mark_billed x ch = record ch { sessions = insert x.session_id (billed_session x) ch.sessions }

  -- `s.billSession`
  unfoldable pub bill_session : ℕ → Store → Result Invoice
  bill_session sid s =
      commit (check_bill sid s)
        (λ w.
          let inv = new_invoice sid w.0 w.1 s.money in
          let id = inv.invoice_id in
          let t =
            audit_log now none "INVOICE" id "ISSUE" none (some (issued sid inv.total)) s.trail in
          (
            ok inv,
            record s {
              money = issue sid w.0 w.1 s.money;
              charging = mark_billed w.0 s.charging;
              trail = notify now w.0.user_id (invoice_issued id inv.total) t;
            },
          ))
        s
