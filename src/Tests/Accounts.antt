-- ===== src/Tests/Accounts.antt =====
-- Billing, wallets and payments at concrete inputs.
use volt_hub_csms.Prelude.{◌≡◌, ◌≢◌, refl, [], ◌∷◌, none, some, arith, nat_eq}
use volt_hub_csms.Prelude.Int.{pos}
use volt_hub_csms.Prelude.Decimal.{whole, hundredths, to_fixed2, IsCents}
use volt_hub_csms.Prelude.Dict.{lookup}
use volt_hub_csms.Prelude.Outcome.{ok, err}
use volt_hub_csms.State.{
  Store, Session, SessionState, BillingState, remark, due, success, Payment, e_pay_conflict,
}
use volt_hub_csms.System.{run}
use volt_hub_csms.System.Accounts.{IsSettled, IsBalanced, AllInCents, run-IsSettled, run-IsBalanced}
use volt_hub_csms.Wallets.{pay_invoice, add_funds, check_pay}
use volt_hub_csms.Billing.{new_invoice, energy_of, lines_for, fee_of}
use volt_hub_csms.Wallets.Reconciled.{IsReconciled, balance_of, ledger_sum}
use volt_hub_csms.Wallets.Payments.{IsPaidOnce, pay_invoice_twice}
use volt_hub_csms.Wallets.Drift.{add_funds_drifts}
use volt_hub_csms.Billing.Bills.{IsPriced, sum_lines, total-eq-sum_lines}
use volt_hub_csms.Tests.Data.{limits, noon, demo, demo_money, day, left_connector}
use volt_hub_csms.Tests.Charging.{demo-IsCharging}

demo-IsPaidOnce : IsPaidOnce demo_money
unfolding lookup
demo-IsPaidOnce = record { pay_fresh = λ k h. refl; inv_fresh = λ k h. refl; once = λ i. refl }

demo-IsSettled : IsSettled demo
unfolding lookup
demo-IsSettled = record { charging = demo-IsCharging; paid = demo-IsPaidOnce; billed = λ i. refl }

demo-IsPriced : IsPriced demo_money
unfolding lookup
demo-IsPriced = record { prices = (ground arith, tt); fees = λ i p e. ground (arith, e) }

demo-IsReconciled : IsReconciled demo_money
unfolding lookup to_fixed2
demo-IsReconciled = record {
  cents = λ u. refl;
  nonneg = λ u. ground arith;
  balanced = λ u. refl;
  numbered = λ u. refl;
  totals = λ i inv e. absurd (ground (arith, e));
}

run-IsSettled_example : IsSettled (run limits noon day demo)
run-IsSettled_example = run-IsSettled limits noon day demo demo-IsSettled

day-AllInCents : AllInCents day
unfolding to_fixed2
day-AllInCents = (tt, (tt, (tt, (tt, (tt, (tt, (refl, (tt, (tt, tt)))))))))

run-IsBalanced_example : IsBalanced (run limits noon day demo).money
run-IsBalanced_example =
    run-IsBalanced limits noon day demo day-AllInCents
      (record { priced = demo-IsPriced; reconciled = demo-IsReconciled })

-- An invoice of 3.50 that is due, and a wallet of 20.
abbrev owing : Store
owing = record demo {
  money = record demo_money {
    wallets = (7, record { user_id = 7; balance = whole 20; updated_at = none }) ∷ [];
    invoices =
        (
          1,
          record {
            invoice_id = 1;
            session_id = 1;
            tariff_plan_id = 1;
            status = due;
            total = hundredths 350;
            issued_at = 9001;
          },
        )
        ∷ [];
    inv_seq = 1;
  };
}

abbrev receipt : Payment
receipt = record {
  payment_id = 1;
  invoice_id = 1;
  amount = hundredths 350;
  status = success;
  reference = some 9003;
  created_at = 9003;
}

receipt_lem : (pay_invoice 9003 1 7 owing).0 ≡ ok receipt
unfolding pay_invoice check_pay lookup
receipt_lem = refl

pay_invoice_twice_example :
    pay_invoice 9010 1 8 (pay_invoice 9003 1 7 owing).1
    ≡ (err e_pay_conflict, (pay_invoice 9003 1 7 owing).1)
pay_invoice_twice_example = pay_invoice_twice 9003 9010 1 7 8 owing receipt receipt_lem

half_cent-not_IsCents : ¬ IsCents (pos 5005000)
unfolding to_fixed2
half_cent-not_IsCents h = ground (arith, h)

add_funds_drifts_example :
    balance_of 7 (add_funds 9000 7 (pos 5005000) (remark "card") demo_money)
    ≢ ledger_sum 7 (add_funds 9000 7 (pos 5005000) (remark "card") demo_money).ledgers
add_funds_drifts_example =
    add_funds_drifts 9000 7 (pos 5005000) (remark "card") demo_money demo-IsReconciled
      half_cent-not_IsCents

abbrev charged : Session
charged = record {
  session_id = 1;
  user_id = 7;
  vehicle_id = some 3;
  reservation_id = none;
  connector_ref = left_connector;
  tariff_plan_id = 1;
  id_tag = none;
  state = SessionState.completed;
  billing_state = BillingState.unbilled;
  started_at = 2000;
  ended_at = some 9000;
  start_meter_kwh = pos 0;
  end_meter_kwh = some (whole 10);
  energy_kwh = none;
  stop_reason = none;
}

total-eq-sum_lines_example :
    (new_invoice noon 9001 1 charged (hundredths 30) demo_money).total
    ≡ sum_lines (lines_for 1 (energy_of charged) (hundredths 30) (fee_of 1 demo_money))
unfolding lookup to_fixed2
total-eq-sum_lines_example =
    total-eq-sum_lines 9001 1 charged (hundredths 30) demo_money noon refl (ground arith)
