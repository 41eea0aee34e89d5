-- ===== src/Engine/Model.antt =====
-- The engine's inputs and outputs, and its errors (engine.go, lines 18-91).
use hamsa.Base.{ℕ, Bool, List}
use hamsa.Base.Int.{ℤ}
use hamsa.Engine.Rat.{Rat}

-- A `Method` is a string: `other` stands for every string that is no constant.
pub data Method : Type 0 where
  equal per_occupant per_area fixed specific_units combined other : Method

pub record ComboWeight : Type 0 where
  pub method : Method
  pub weight : ℤ
  pub fixed_amount_per_unit : ℤ

-- A unit's id is the canonical text of a uuid, which is ordered as the number that it writes.
pub record CostItem : Type 0 where
  pub id : ℕ
  pub total : ℤ
  pub method : Method
  pub fixed_amount_per_unit : ℤ
  pub combo_weights : List ComboWeight
  pub include_vacant : Bool
  pub unit_ids : List ℕ

pub record EngineUnit : Type 0 where
  pub id : ℕ
  pub occupants : ℤ
  pub area_m2 : ℤ
  pub vacant : Bool

pub record Share : Type 0 where
  pub unit_id : ℕ
  pub exact : Rat
  pub rounded : ℤ

pub record ItemResult : Type 0 where
  pub cost_item_id : ℕ
  pub total_used : ℤ
  pub shares : List Share
  pub reconciled : Bool

pub data EngineError : Type 0 where
  no_participants zero_factor specific_units_empty bad_weights : EngineError
  non_positive_total unknown_method unknown_late_fee : EngineError
