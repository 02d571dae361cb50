-- ===== src/System/Accounts.antt =====
-- About invoices, payments and balances in a history of calls on apps/api/src/db/store.js.
use volt_hub_csms.Prelude.{
  ℕ, ◌≡◌, refl, sym, ap, subst, ◌∙◌, List, [], ◌∷◌, Option, none, some, arith, nat_eq,
}
use volt_hub_csms.Prelude.Lists.{count}
use volt_hub_csms.Prelude.Dict.{values, lookup}
use volt_hub_csms.Prelude.Decimal.{Decimal, IsCents}
use volt_hub_csms.State.{Store, Note, Money}
use volt_hub_csms.Outbox.{Limits}
use volt_hub_csms.Wallets.{topup, pay_invoice, add_funds, settle, decline}
use volt_hub_csms.Wallets.Reconciled.{IsReconciled, topup-IsReconciled, pay_invoice-IsReconciled}
use volt_hub_csms.Wallets.Payments.{
  IsPaidOnce, topup-IsPaidOnce, pay_invoice-IsPaidOnce, pay_invoice-bills, topup-invoices,
}
use volt_hub_csms.Billing.{LocalTime, bill_session, issue}
use volt_hub_csms.Billing.Bills.{IsPriced, bill_session-IsReconciled, bill_session-IsPaidOnce}
use volt_hub_csms.Billing.Once.{IsBilledOnce, bills, billed_count, bill_session-IsBilledOnce}
use volt_hub_csms.System.{
  Call, create, cancel, expire, start, transit, tick, stop, bill, pay, fund, step, run,
}
use volt_hub_csms.System.Invariant.{
  SameBilled, create_reservation-sessions, cancel_reservation-sessions, expire_stale-sessions,
  start_session-SameBilled, transition-SameBilled, record_tick-SameBilled, stop_session-SameBilled,
}
use volt_hub_csms.System.History.{IsCharging, step-IsCharging, pay_charging, fund_charging}
use volt_hub_csms.System.Books.{IsQuiet, quiet-money}

-- The tables of reservations and sessions are in order, each session has one invoice if it is BILLED and
-- none if not, and each invoice one successful payment if it is PAID and none if not.
pub record IsSettled (s : Store) : Type 0 where
  pub charging : IsCharging s.charging
  pub paid : IsPaidOnce s.money
  pub billed : IsBilledOnce s

-- The amount of a top-up is a whole number of hundredths.
abbrev pub IsFundedInCents : ℕ × Call → Type 0
IsFundedInCents (_, fund _ (some a) _) = IsCents a
IsFundedInCents _ = Unit

abbrev pub AllInCents : List (ℕ × Call) → Type 0
AllInCents [] = Unit
AllInCents (c ∷ cs) = IsFundedInCents c × AllInCents cs

pub record IsBalanced (m : Money) : Type 0 where
  pub priced : IsPriced m
  pub reconciled : IsReconciled m

abbrev pub SameTariffs : Money → Money → Type 0
SameTariffs a b = (b.bands ≡ a.bands) × (b.plans ≡ a.plans)

IsPriced-same : (a b : Money) → SameTariffs a b → IsPriced a → IsPriced b
IsPriced-same a b (bands, plans) v = record { prices = rw bands v.prices; fees = rw plans v.fees }

bill_tariffs :
    (local : ℕ → LocalTime) (now sid : ℕ) (s : Store)
    → SameTariffs s.money (bill_session local now sid s).1.money
unfolding bill_session issue
bill_tariffs local now sid s = ground arith

pay_tariffs :
    (now inv uid : ℕ) (s : Store) → SameTariffs s.money (pay_invoice now inv uid s).1.money
unfolding pay_invoice settle decline
pay_tariffs now inv uid s = ground arith

fund_tariffs :
    (now uid : ℕ) (a : Option Decimal) (n : Note) (s : Store)
    → SameTariffs s.money (topup now uid a n s).1.money
unfolding topup add_funds
fund_tariffs now uid a n s = ground arith

module _ (l : Limits) (local : ℕ → LocalTime) where
  quiet-IsSettled :
      (c : ℕ × Call) (s : Store)
      → IsQuiet l local c
      → SameBilled s.charging (step l local c s).charging
      → IsSettled s
      → IsSettled (step l local c s)
  quiet-IsSettled c s q same v =
      let m = quiet-money l local c s q in
      record {
        charging = step-IsCharging l local c s v.charging;
        paid = rw m v.paid;
        billed = λ i. ap (λ t. count (bills i) (values t.invoices)) m ∙ v.billed i ∙ sym (same i);
      }

  step-IsSettled : (c : ℕ × Call) (s : Store) → IsSettled s → IsSettled (step l local c s)
  step-IsSettled (now, create uid vehicle key from to) s v =
      quiet-IsSettled (now, create uid vehicle key from to) s tt
        (λ i.
          unfold step in
          (ap (λ t. billed_count (lookup i t))
            (create_reservation-sessions l now uid vehicle key from to s)))
        v
  step-IsSettled (now, cancel rid actor role scope) s v =
      quiet-IsSettled (now, cancel rid actor role scope) s tt
        (λ i.
          unfold step in
          (ap (λ t. billed_count (lookup i t))
            (cancel_reservation-sessions l now rid actor role scope s)))
        v
  step-IsSettled (now, expire) s v =
      quiet-IsSettled (now, expire) s tt
        (λ i. unfold step in (ap (λ t. billed_count (lookup i t)) (expire_stale-sessions l now s)))
        v
  step-IsSettled (now, start q) s v =
      quiet-IsSettled (now, start q) s tt
        (λ i. unfold step in (start_session-SameBilled l now q s v.charging.sound i)) v
  step-IsSettled (now, transit sid to reason) s v =
      quiet-IsSettled (now, transit sid to reason) s tt
        (λ i. unfold step in (transition-SameBilled l now sid to reason s v.charging.sound i)) v
  step-IsSettled (now, tick q) s v =
      quiet-IsSettled (now, tick q) s tt
        (λ i. unfold step in (record_tick-SameBilled l now q s v.charging.sound i)) v
  step-IsSettled (now, stop sid reason end_meter) s v =
      quiet-IsSettled (now, stop sid reason end_meter) s tt
        (λ i.
          unfold step in (stop_session-SameBilled l now sid reason end_meter s v.charging.sound i))
        v
  step-IsSettled (now, bill sid) s v = record {
    charging = step-IsCharging l local (now, bill sid) s v.charging;
    paid = unfold step in (bill_session-IsPaidOnce local now sid s v.paid);
    billed =
        unfold step in (bill_session-IsBilledOnce local now sid s v.charging.sound v.paid v.billed);
  }
  step-IsSettled (now, pay inv uid) s v = record {
    charging = step-IsCharging l local (now, pay inv uid) s v.charging;
    paid = unfold step in (pay_invoice-IsPaidOnce now inv uid s v.paid);
    billed = λ i.
        unfold step in
        (pay_invoice-bills now (bills i) (λ x. refl) inv uid s
          ∙ v.billed i
          ∙ ap (λ c. billed_count (lookup i c.sessions))
              (sym (pay_charging l local now inv uid s)));
  }
  step-IsSettled (now, fund uid amount note) s v = record {
    charging = step-IsCharging l local (now, fund uid amount note) s v.charging;
    paid = unfold step in (topup-IsPaidOnce now uid amount note s v.paid);
    billed = λ i.
        unfold step in
        (ap (λ t. count (bills i) (values t)) (topup-invoices now uid amount note s)
          ∙ v.billed i
          ∙ ap (λ c. billed_count (lookup i c.sessions))
              (sym (fund_charging l local now uid amount note s)));
  }

  -- From a store in which this holds and whose reservations and sessions are in order, along every
  -- history of calls, there is one invoice for each BILLED session and one successful payment for
  -- each PAID invoice, and none for others.
  pub run-IsSettled :
      (cs : List (ℕ × Call)) (s : Store) → IsSettled s → IsSettled (run l local cs s)
  unfolding run
  run-IsSettled [] s v = v
  run-IsSettled (c ∷ cs) s v = run-IsSettled cs (step l local c s) (step-IsSettled c s v)

  quiet-IsBalanced :
      (c : ℕ × Call) (s : Store)
      → IsQuiet l local c
      → IsBalanced s.money
      → IsBalanced (step l local c s).money
  quiet-IsBalanced c s q v = rw (quiet-money l local c s q) v

  step-IsBalanced :
      (c : ℕ × Call) (s : Store)
      → IsFundedInCents c
      → IsBalanced s.money
      → IsBalanced (step l local c s).money
  step-IsBalanced (now, create uid vehicle key from to) s c v =
      quiet-IsBalanced (now, create uid vehicle key from to) s tt v
  step-IsBalanced (now, cancel rid actor role scope) s c v =
      quiet-IsBalanced (now, cancel rid actor role scope) s tt v
  step-IsBalanced (now, expire) s c v = quiet-IsBalanced (now, expire) s tt v
  step-IsBalanced (now, start q) s c v = quiet-IsBalanced (now, start q) s tt v
  step-IsBalanced (now, transit sid to reason) s c v =
      quiet-IsBalanced (now, transit sid to reason) s tt v
  step-IsBalanced (now, tick q) s c v = quiet-IsBalanced (now, tick q) s tt v
  step-IsBalanced (now, stop sid reason end_meter) s c v =
      quiet-IsBalanced (now, stop sid reason end_meter) s tt v
  step-IsBalanced (now, bill sid) s c v = record {
    priced =
        unfold step in
        IsPriced-same s.money (bill_session local now sid s).1.money (bill_tariffs local now sid s)
          v.priced;
    reconciled = unfold step in (bill_session-IsReconciled local now sid s v.priced v.reconciled);
  }
  step-IsBalanced (now, pay inv uid) s c v = record {
    priced =
        unfold step in
        IsPriced-same s.money (pay_invoice now inv uid s).1.money (pay_tariffs now inv uid s)
          v.priced;
    reconciled = unfold step in (pay_invoice-IsReconciled now inv uid s v.reconciled);
  }
  step-IsBalanced (now, fund uid none note) s c v = record {
    priced =
        unfold step in
        IsPriced-same s.money (topup now uid none note s).1.money (fund_tariffs now uid none note s)
          v.priced;
    reconciled =
        unfold step in
        (topup-IsReconciled now uid none note s (λ a e. absurd (ground (arith, e))) v.reconciled);
  }
  step-IsBalanced (now, fund uid (some a) note) s c v = record {
    priced =
        unfold step in
        IsPriced-same s.money (topup now uid (some a) note s).1.money
          (fund_tariffs now uid (some a) note s) v.priced;
    reconciled =
        unfold step in
        (topup-IsReconciled now uid (some a) note s (λ b e. let q : a ≡ b = cc in subst IsCents q c)
          v.reconciled);
  }

  -- From balanced books with prices and fees that are not negative, along every history whose
  -- top-ups are whole hundredths, every wallet's balance is the sum of its ledger rows, is not
  -- negative and a whole number of hundredths, and the rows of a user are numbered from 1 with no
  -- gap.
  pub run-IsBalanced :
      (cs : List (ℕ × Call)) (s : Store)
      → AllInCents cs
      → IsBalanced s.money
      → IsBalanced (run l local cs s).money
  unfolding run
  run-IsBalanced [] s c v = v
  run-IsBalanced (x ∷ cs) s c v =
      run-IsBalanced cs (step l local x s) c.1 (step-IsBalanced x s c.0 v)
