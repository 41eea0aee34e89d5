-- ===== src/Payment/Tests.antt =====
-- Examples for backend/internal/payment: one unit with one open invoice.
use hamsa.Base.{
  ℕ, ◌+◌, ◌≡◌, refl, ◌≤◌, ◌<◌, ◌^◌, Bool, true, false, ◌&&◌, List, [], ◌∷◌, Option, none, some,
  arith, exists, ◌==◌,
}
use hamsa.Base.Int.{ℤ, pos, ◌+ℤ◌, ◌-ℤ◌}
use hamsa.Base.Results.{is_ok}
use hamsa.Server.{World, database}
use hamsa.Server.Rules.{Ends}
use hamsa.Billing.Model.{Invoice, building_number, unpaid, cancelled}
use hamsa.Payment.Model.{
  Payment, gateway as by_gateway, recorded, LedgerInvoice, PaymentDb, PaymentUnit,
}
use hamsa.Payment.Start.{Started, start_gateway-Started}
use hamsa.Payment.Reversal.{Reversed, reverse_payment-Reversed}
use hamsa.Payment.Service.{start_gateway}
use hamsa.Payment.Balance.{reverse_payment, recompute_balance}
use hamsa.Payment.Service.{
  User, ManualPaymentInput, today, Gateway, by_payment_id, apply_to_invoice, record_manual,
  handle_callback, settle_invoice, is_void,
}
use hamsa.Payment.Apply.{InRange, Applies, apply_to_invoice_lem}
use hamsa.Payment.Manual.{Recorded, NoWrite, record_manual-Recorded}
use hamsa.Payment.Callback.{Answered, handle_callback-Answered}
use hamsa.Payment.Revival.{settle_invoice-revives}
use hamsa.Payment.Position.{
  Position, Restamped, recompute_balance-Position, recompute_balance-recompute_balance,
}

abbrev invoice : Invoice
invoice = record {
  id = 5;
  invoice_number = building_number 2026 (pos 1);
  building_id = 1;
  period_id = 3;
  unit_id = 2;
  base_amount = pos 1000;
  prior_debt = pos 200;
  late_fee_amount = pos 0;
  credit_amount = pos 0;
  final_amount = pos 1200;
  issue_date = some 100;
  due_date = some 130;
  status = unpaid;
  paid_amount = pos 300;
  inputs_frozen_at = some 100;
}

abbrev pending : Payment
pending = record {
  id = 8;
  building_id = 1;
  unit_id = 2;
  invoice_id = some 5;
  method = by_gateway;
  amount = pos 900;
  paid_at = 110;
  tracking_number = none;
  authority = some 77;
  recorded_by = some 7;
  status = recorded;
}

abbrev world : World PaymentDb
world = record {
  db = record {
    invoices = invoice ∷ [];
    adjustments = [];
    payments = pending ∷ [];
    balances = [];
    units = record { id = 2; building_id = 1 } ∷ [];
    grants = record { user_id = 9; building_id = 1 } ∷ [];
    occupancies = [];
    residents = record { unit_id = 2; user_id = 7 } ∷ [];
    notifications = [];
  };
  faults = λ _. false;
  calls = 0;
  uuid = λ k. 100 + k;
  drawn = 0;
  now = 864000;
}

abbrev manager : User
manager = record { id = 9; phone = 911; is_manager = true }

abbrev cash : ManualPaymentInput
cash = record { amount = some (pos 500); paid_at = today; tracking_number = none }

abbrev accepting : Gateway
accepting = record { start = λ _. some 77; verify = λ a _. some (true, 4242) }

abbrev ledger_of_invoice : LedgerInvoice
ledger_of_invoice = record {
  id = 5;
  building_id = 1;
  unit_id = 2;
  status = unpaid;
  paid_amount = pos 300;
  final_amount = pos 1200;
  debit_adj = pos 0;
  credit_adj = pos 0;
}

abbrev voided : LedgerInvoice
voided = record ledger_of_invoice { status = cancelled }

in_range : InRange ledger_of_invoice (pos 500)
unfolding hamsa.Payment.Model.effective hamsa.Base.Int64.add64 hamsa.Base.Int64.sub64
    hamsa.Base.Int.◌+ℤ◌ hamsa.Base.Int.◌-ℤ◌
in_range = record {
  amount_nonneg = omega arith;
  paid_nonneg = omega arith;
  debt_fits = (omega arith, omega arith);
  paid_fits = (omega arith, omega arith);
}

apply_to_invoice_lem_example :
    Applies ledger_of_invoice (pos 500) (apply_to_invoice ledger_of_invoice (pos 500))
apply_to_invoice_lem_example = apply_to_invoice_lem ledger_of_invoice (pos 500) in_range

record_manual-Recorded_example :
    Ends (Recorded manager 5 world) (NoWrite world) (record_manual manager 5 cash world)
record_manual-Recorded_example = record_manual-Recorded manager 5 cash world

handle_callback-Answered_example :
    Ends
      (Answered accepting (by_payment_id (some 8)) world)
      (NoWrite world)
      (handle_callback accepting (by_payment_id (some 8)) world)
handle_callback-Answered_example = handle_callback-Answered accepting (by_payment_id (some 8)) world

-- The invoice's row is cancelled.
abbrev voided_world : World PaymentDb
voided_world = record world {
  db = record world.db { invoices = record invoice { status = cancelled } ∷ [] };
}

settle_invoice-revives_example :
    Ends
      (λ _ w'. exists (λ i. i.id == 5 && is_void i.status) w'.db.invoices ≡ false)
      (λ e _. e ≡ database)
      (settle_invoice voided (pos 900) voided_world)
settle_invoice-revives_example = settle_invoice-revives voided (pos 900) voided_world

settle_invoice_runs : is_ok (settle_invoice voided (pos 900) voided_world).0 ≡ true
unfolding settle_invoice hamsa.Payment.Service.apply_invoice_paid recompute_balance
    hamsa.Server.Monad.query hamsa.Server.Monad.exec hamsa.Server.Monad.time_now
settle_invoice_runs = refl

recompute_balance-Position_example :
    Ends (Position 2 world) (λ _ w'. w'.db ≡ world.db) (recompute_balance 2 world)
recompute_balance-Position_example = recompute_balance-Position 2 world

abbrev next_day : World PaymentDb
next_day = record world { calls = 40; now = 950400 }

recompute_balance-recompute_balance_example :
    Ends
      (λ b w1.
        Ends
          (Restamped 2 b (record next_day { db = w1.db }))
          (λ _ w2. w2.db ≡ w1.db)
          (recompute_balance 2 (record next_day { db = w1.db })))
      (λ _ w'. w'.db ≡ world.db)
      (recompute_balance 2 world)
recompute_balance-recompute_balance_example = recompute_balance-recompute_balance 2 world next_day

record_manual_runs : is_ok (record_manual manager 5 cash world).0 ≡ true
unfolding record_manual hamsa.Payment.Service.authorized_invoice
    hamsa.Payment.Service.can_access_unit hamsa.Payment.Service.invoice_for_update
    hamsa.Payment.Service.create_payment hamsa.Payment.Service.settle_invoice
    hamsa.Payment.Service.apply_invoice_paid hamsa.Payment.Service.notify_recorded recompute_balance
    hamsa.Server.Monad.query hamsa.Server.Monad.first hamsa.Server.Monad.exec
    hamsa.Server.Monad.transaction hamsa.Server.Monad.best_effort hamsa.Server.Monad.new_id
    hamsa.Server.Monad.time_now
record_manual_runs = refl

handle_callback_runs : is_ok (handle_callback accepting (by_payment_id (some 8)) world).0 ≡ true
unfolding handle_callback hamsa.Payment.Service.callback_payment
    hamsa.Payment.Service.invoice_for_update hamsa.Payment.Service.settle_invoice
    hamsa.Payment.Service.apply_invoice_paid hamsa.Payment.Service.notify_recorded recompute_balance
    hamsa.Server.Monad.query hamsa.Server.Monad.first hamsa.Server.Monad.exec
    hamsa.Server.Monad.transaction hamsa.Server.Monad.best_effort hamsa.Server.Monad.new_id
    hamsa.Server.Monad.time_now
handle_callback_runs = refl

start_gateway-Started_example :
    Ends (Started 5 world) (NoWrite world) (start_gateway accepting manager 5 none world)
start_gateway-Started_example = start_gateway-Started accepting manager 5 none world

reverse_payment-Reversed_example : Ends (Reversed 8 world) (NoWrite world) (reverse_payment 8 world)
reverse_payment-Reversed_example = reverse_payment-Reversed 8 world

start_gateway_runs : is_ok (start_gateway accepting manager 5 none world).0 ≡ true
unfolding start_gateway hamsa.Payment.Model.effective hamsa.Base.Int64.add64 hamsa.Base.Int64.sub64
    hamsa.Base.Int64.wrap64 hamsa.Base.Int.◌+ℤ◌ hamsa.Base.Int.◌-ℤ◌
    hamsa.Payment.Service.authorized_invoice hamsa.Payment.Service.can_access_unit
    hamsa.Payment.Service.invoice_for_update hamsa.Payment.Service.create_payment
    hamsa.Server.Monad.query hamsa.Server.Monad.first hamsa.Server.Monad.exec
    hamsa.Server.Monad.new_id hamsa.Server.Monad.time_now
start_gateway_runs = refl
