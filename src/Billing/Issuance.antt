-- ===== src/Billing/Issuance.antt =====
-- Theorems on issuing a period (backend/internal/billing/repository.go, lines 306-354).
use hamsa.Base.{
  arith, ◌≡◌, refl, ap, ◌∙◌, true, false, ◌&&◌, not, some, ℕ, exists, keep, ◌==◌, List, [], ◌∷◌,
  update_where,
}
use hamsa.Base.Int.{ℤ, pos}
use hamsa.Base.Int64.{add64}
use hamsa.Server.{
  ApiError, World, exec?, exec, query, first, fail_if, not_calculable, tick, transaction, ◌>>◌,
  ◌>>=◌,
}
use hamsa.Server.Rules.{
  Ends, bind-Ends, imp-Ends, transaction-Ends, query-Ends, first-Ends, fail_if-Ends, guard_lem,
}
use hamsa.Billing.Model.{Invoice, BillingDb, BillingPeriod, issued}
use hamsa.Billing.Repository.{
  number_all, issue_invoices, sort_by_unit, numbered, find_period, is_calculated, is_issued,
  mark_issued, Billing,
}
use hamsa.Billing.Lifecycle.{BWorld, Unchanged}
use hamsa.Billing.Numbering.{Numbered, Distinct, all_have, number_all-Numbered}

-- The drafts of a period, in the order in which they are numbered.
abbrev drafts_of : ℕ → BillingDb → List Invoice
drafts_of period_id db = sort_by_unit (keep (λ i. i.period_id == period_id) db.invoices)

abbrev next_number : BillingPeriod → BillingDb → ℤ
next_number p db = add64 (pos (numbered p.building_id db)) (pos 1)

-- The period was calculated, it is issued now, and the numbers of its invoices go on from the count.
abbrev pub Issued : ℕ → ℕ → BWorld → List Invoice → BWorld → Type 0
Issued period_id year w is w' =
    (p : BillingPeriod) × (find_period period_id w.db ≡ some p)
    × (is_calculated p.status ≡ true)
    × Numbered (next_number p w.db) year (drafts_of period_id w.db) w'.db
    × (exists (λ q. q.id == period_id && not (is_issued q.status)) w'.db.periods ≡ false)
    × (is ≡ keep (λ i. i.period_id == period_id) w'.db.invoices)

mark_issued-periods :
    (id now : ℕ) (ps : List BillingPeriod)
    → exists
        (λ q. q.id == id && not (is_issued q.status))
        (update_where
          (λ p. p.id == id)
          (λ p. record p { status = issued; issued_at = some now })
          ps)
      ≡ false
mark_issued-periods id now [] = refl
mark_issued-periods id now (p ∷ ps) = ground (arith, mark_issued-periods id now ps)

module _ (period_id year now : ℕ) (w : BWorld) where
  abbrev finish : Billing (List Invoice)
  finish =
      exec (mark_issued period_id now)
      >> query (λ db. keep (λ i. i.period_id == period_id) db.invoices)

  finish-Ends :
      (w1 : BWorld)
      → Ends
          (λ is w'.
            (w'.db ≡ mark_issued period_id now w1.db)
            × (is ≡ keep (λ i. i.period_id == period_id) w'.db.invoices))
          (λ _ _. Unit {0})
          (finish w1)
  unfolding hamsa.Server.Monad.exec hamsa.Server.Monad.query
  finish-Ends w1 = ground arith

  Numbered-mark :
      (seq : ℤ) (is : List Invoice) (d d' : BillingDb)
      → d'.invoices ≡ d.invoices
      → Numbered seq year is d
      → Numbered seq year is d'
  Numbered-mark seq [] d d' e h = tt
  Numbered-mark seq (i ∷ is) d d' e h =
      (ap (all_have i.id year seq) e ∙ h.0, Numbered-mark (add64 seq (pos 1)) is d d' e h.1)

  number_and_finish :
      (p : BillingPeriod) (w1 : BWorld)
      → find_period period_id w.db ≡ some p
      → is_calculated p.status ≡ true
      → Distinct (drafts_of period_id w.db)
      → Ends
          (Issued period_id year w)
          (λ _ _. Unit {0})
          ((number_all (next_number p w.db) year now (drafts_of period_id w.db) >> finish) w1)
  number_and_finish p w1 f c h =
      bind-Ends (Issued period_id year w) (λ _ _. Unit {0})
        (number_all (next_number p w.db) year now (drafts_of period_id w.db)) (λ _. finish) w1
        (imp-Ends _ _ (λ _ w'. Numbered (next_number p w.db) year (drafts_of period_id w.db) w'.db)
          (λ _ _. Unit {0}) (number_all (next_number p w.db) year now (drafts_of period_id w.db) w1)
          (number_all-Numbered year now (next_number p w.db) (drafts_of period_id w.db) w1 h)
          (λ _ w2 n.
            imp-Ends _ _
              (λ is w'.
                (w'.db ≡ mark_issued period_id now w2.db)
                × (is ≡ keep (λ i. i.period_id == period_id) w'.db.invoices))
              (λ _ _. Unit {0}) (finish w2) (finish-Ends w2)
              (λ is w3 q. (
                p,
                f,
                c,
                Numbered-mark (next_number p w.db) (drafts_of period_id w.db) w2.db w3.db
                    (ap (λ d. d.invoices) q.0) n,
                ap (λ d. exists (λ r. r.id == period_id && not (is_issued r.status)) d.periods) q.0
                    ∙ mark_issued-periods period_id now w2.db.periods,
                q.1,
              ))
              (λ _ _ _. tt))
          (λ _ _ _. tt))

  abbrev count_and_number : BillingPeriod → Billing (List Invoice)
  count_and_number p = do
    count ← query (numbered p.building_id)
    drafts ← query (drafts_of period_id)
    number_all (add64 (pos count) (pos 1)) year now drafts
    finish

  counted :
      (p : BillingPeriod)
      → find_period period_id w.db ≡ some p
      → is_calculated p.status ≡ true
      → Distinct (drafts_of period_id w.db)
      → Ends (Issued period_id year w) (λ _ _. Unit {0}) (count_and_number p (tick w))
  counted p f c h =
      bind-Ends (Issued period_id year w) (λ _ _. Unit {0}) (query (numbered p.building_id))
        (λ count. query (drafts_of period_id) >>= λ drafts.
          number_all (add64 (pos count) (pos 1)) year now drafts >> finish)
        (tick w)
        (query-Ends _ (λ _ _. Unit {0}) (numbered p.building_id) (tick w)
          (bind-Ends (Issued period_id year w) (λ _ _. Unit {0}) (query (drafts_of period_id))
            (λ drafts. number_all (next_number p w.db) year now drafts >> finish) (tick (tick w))
            (query-Ends _ (λ _ _. Unit {0}) (drafts_of period_id) (tick (tick w))
              (number_and_finish p (tick (tick (tick w))) f c h) tt))
          tt)

pub issue_invoices-Issued :
    (period_id year now : ℕ) (w : BWorld)
    → Distinct (drafts_of period_id w.db)
    → Ends (Issued period_id year w) (Unchanged w) (issue_invoices period_id year now w)
unfolding issue_invoices
issue_invoices-Issued period_id year now w h =
    transaction-Ends (Issued period_id year w) (Unchanged w)
      (first (find_period period_id) >>= λ p.
        fail_if (not (is_calculated p.status)) not_calculable
        >> count_and_number period_id year now w p)
      w
      (imp-Ends _ _ (Issued period_id year w) (λ _ _. Unit {0}) _
        (bind-Ends (Issued period_id year w) (λ _ _. Unit {0}) (first (find_period period_id))
          (λ p.
            fail_if (not (is_calculated p.status)) not_calculable
            >> count_and_number period_id year now w p)
          w
          (first-Ends _ (λ _ _. Unit {0}) (find_period period_id) w
            (λ p f.
              bind-Ends (Issued period_id year w) (λ _ _. Unit {0})
                (fail_if (not (is_calculated p.status)) not_calculable)
                (λ _. count_and_number period_id year now w p) (tick w)
                (fail_if-Ends _ (λ _ _. Unit {0}) (not (is_calculated p.status)) not_calculable
                  (tick w) (λ c. counted period_id year now w p f (guard_lem _ c) h) (λ _. tt)))
            (λ _. tt) tt))
        (λ _ w' q. (q, refl)) (λ _ _ _. refl))
