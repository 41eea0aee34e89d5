-- ===== src/Payment/Reversal.antt =====
-- The reversal of a payment (backend/internal/payment/balance_service.go, lines 75-93).
use hamsa.Base.{◌≡◌, refl, some, ℕ}
use hamsa.Server.{◌>>◌, ◌>>=◌, first, exec, pure, tick}
use hamsa.Server.Rules.{Ends, bind-Ends, imp-Ends, transaction-Ends, first-Ends, exec-Ends}
use hamsa.Payment.Model.{Payment, reversed}
use hamsa.Payment.Balance.{find_payment, put_payment, recompute_balance, reverse_payment}
use hamsa.Payment.Books.{PWorld, with_balance}
use hamsa.Payment.Manual.{NoWrite}
use hamsa.Payment.Position.{recompute_balance-Ends}

-- The stored payment is reversed, and the balance of its unit follows.
abbrev pub Reversed : ℕ → PWorld → Payment → PWorld → Type 0
Reversed id w p' w' =
    (p : Payment) × (find_payment id w.db ≡ some p)
    × (p' ≡ record p { status = reversed })
    × (w'.db ≡ with_balance p.unit_id w.now (put_payment p' w.db))

-- Reversing a payment succeeds only for a stored payment. It returns the payment as reversed, replaces its row, and
-- the balance of its unit is the one computed from the rows after that; nothing else changes. Otherwise
-- the database is as it was.
pub reverse_payment-Reversed :
    (id : ℕ) (w : PWorld) → Ends (Reversed id w) (NoWrite w) (reverse_payment id w)
unfolding reverse_payment
reverse_payment-Reversed id w =
    transaction-Ends (Reversed id w) (NoWrite w)
      (first (find_payment id) >>= λ p.
        exec (put_payment (record p { status = reversed }))
        >> (recompute_balance p.unit_id >>= λ b. pure (record p { status = reversed })))
      w
      (imp-Ends _ _ (Reversed id w) (λ _ _. Unit {0}) _
        (bind-Ends (Reversed id w) (λ _ _. Unit {0}) (first (find_payment id))
          (λ p.
            exec (put_payment (record p { status = reversed }))
            >> (recompute_balance p.unit_id >>= λ b. pure (record p { status = reversed })))
          w
          (first-Ends _ (λ _ _. Unit {0}) (find_payment id) w
            (λ p f.
              bind-Ends (Reversed id w) (λ _ _. Unit {0})
                (exec (put_payment (record p { status = reversed })))
                (λ _. recompute_balance p.unit_id >>= λ b. pure (record p { status = reversed }))
                (tick w)
                (exec-Ends
                  (λ _ w1.
                    Ends (Reversed id w) (λ _ _. Unit {0})
                      ((recompute_balance p.unit_id >>= λ b. pure (record p { status = reversed }))
                        w1))
                  (λ _ _. Unit {0}) (put_payment (record p { status = reversed })) (tick w)
                  (bind-Ends (Reversed id w) (λ _ _. Unit {0}) (recompute_balance p.unit_id)
                    (λ b. pure (record p { status = reversed })) _
                    (imp-Ends _ _ _ _ (recompute_balance p.unit_id _)
                      (recompute_balance-Ends p.unit_id _) (λ b w2 q. (p, f, refl, q.1))
                      (λ _ _ _. tt)))
                  tt))
            (λ _. tt) tt))
        (λ _ _ q. (q, refl)) (λ _ _ _. refl))
