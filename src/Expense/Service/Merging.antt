-- ===== src/Expense/Service/Merging.antt =====
-- The parts of a payload and the row they make (backend/internal/expense/service.go).
use hamsa.Base.{
  ℕ, Bool, ◌||◌, not, [], ◌∷◌, Option, none, some, length, is_empty, ltb, if◌then◌else◌,
}
use hamsa.Base.Int.{ℤ, pos, leb_ℤ}
use hamsa.Base.Text.{Text, trim_space}
use hamsa.Expense.Model.{
  Expense, Category, Approval, parse_category, parse_approval, water, pending,
}

-- "" is absent; a text that is no number, or no date, is invalid.
pub data NumberInput : Type 0 where
  no_number not_a_number : NumberInput
  number : ℤ → NumberInput

pub data DateInput : Type 0 where
  no_date not_a_date : DateInput
  day : ℕ → DateInput

pub record Input : Type 0 where
  pub title : Text
  pub category : Text
  pub amount : NumberInput
  pub expense_date : DateInput
  pub description : Option Text
  pub payer_person_id : Option ℕ
  pub receipt_file_id : Option Text
  pub approval_status : Text

-- The parts of a payload: the value, or none where the payload is invalid. A part that is absent
-- keeps what was there, but on creation it is invalid.

abbrev pub title_of : Bool → Text → Text → Option Text
title_of create s old =
    if create || not (is_empty s)
    then (let t = trim_space s in if is_empty t || ltb 150 (length t) then none else some t)
    else some old

abbrev category_of : Bool → Text → Category → Option Category
category_of create s old = if create || not (is_empty s) then parse_category s else some old

abbrev pub amount_of : Bool → NumberInput → ℤ → Option ℤ
amount_of create no_number old = if create then none else some old
amount_of create not_a_number old = none
amount_of create (number z) old = if leb_ℤ z (pos 0) then none else some z

abbrev pub date_of : Bool → DateInput → ℕ → Option ℕ
date_of create no_date old = if create then none else some old
date_of create not_a_date old = none
date_of create (day d) old = some d

-- On creation an absent status is pending.
abbrev approval_of : Bool → Text → Approval → Option Approval
approval_of create [] old = some (if create then pending else old)
approval_of create (c ∷ cs) old = parse_approval (c ∷ cs)

abbrev pub given_or : {A : Type 0} → Option A → Option A → Option A
given_or none old = old
given_or (some a) old = some a

-- The row with the parts, or none where one is invalid.
abbrev pub built :
    Expense
    → Input
    → Option Text
    → Option Text
    → Option Category
    → Option ℤ
    → Option ℕ
    → Option Approval
    → Option Expense
built e input file (some t) (some c) (some a) (some d) (some s) = some (record e {
  title = t;
  category = c;
  amount = a;
  expense_date = d;
  approval_status = s;
  description = given_or input.description e.description;
  payer_person_id = given_or input.payer_person_id e.payer_person_id;
  receipt_file = file;
})
built e input file _ _ _ _ _ = none

abbrev pub merge : Expense → Input → Bool → Option Text → Option Expense
merge e input create file =
    built e input file (title_of create input.title e.title)
      (category_of create input.category e.category) (amount_of create input.amount e.amount)
      (date_of create input.expense_date e.expense_date)
      (approval_of create input.approval_status e.approval_status)

abbrev pub blank_expense : ℕ → ℕ → ℕ → Expense
blank_expense id building_id created_by = record {
  id = id;
  building_id = building_id;
  title = [];
  category = water;
  amount = pos 0;
  expense_date = 0;
  description = none;
  payer_person_id = none;
  receipt_file = none;
  approval_status = pending;
  created_by = created_by;
  created_at = 0;
  updated_at = 0;
  deleted_at = none;
}
