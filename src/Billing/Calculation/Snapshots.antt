-- ===== src/Billing/Calculation/Snapshots.antt =====
-- The inputs of the engine, as backend/internal/billing/calc_service.go snapshots them.
use hamsa.Base.{ℕ, List, [], ◌∷◌, map, Option, none, some}
use hamsa.Base.Int.{ℤ, pos}
use hamsa.Base.Results.{Result, ok, err, panic}
use hamsa.Engine.Model.{Method, Share, ItemResult, EngineUnit, EngineError}
use hamsa.Engine.Model
use hamsa.Engine.Fees.{FeeKind}
use hamsa.Server.{bad_request, Message, pure, ◌>>=◌}
use hamsa.Billing.Model.{LateFeeType, fixed_fee, percent, per_day, Weight, CostItem, BuildingUnit}
use hamsa.Billing.Repository.{Billing, occupant_count_as_of}

-- `engineError`: each engine error has a message of its own.
abbrev engine_message : EngineError → Message
engine_message EngineError.no_participants = Message.no_participants
engine_message EngineError.zero_factor = Message.zero_factor
engine_message EngineError.specific_units_empty = Message.specific_units_empty
engine_message EngineError.bad_weights = Message.bad_weights
engine_message EngineError.non_positive_total = Message.non_positive_total
engine_message EngineError.unknown_method = Message.unknown_method
engine_message EngineError.unknown_late_fee = Message.unknown_late_fee

abbrev pub from_engine : {A : Type 0} → Result EngineError A → Billing A
from_engine (ok a) w = (ok a, w)
from_engine (err e) w = (err (bad_request (engine_message e)), w)
from_engine panic w = (panic, w)

-- `engineLateFeeType`
abbrev pub engine_fee : LateFeeType → FeeKind
engine_fee fixed_fee = FeeKind.fixed
engine_fee percent = FeeKind.percent
engine_fee per_day = FeeKind.per_day
engine_fee _ = FeeKind.none

abbrev amount_or_zero : Option ℤ → ℤ
amount_or_zero none = pos 0
amount_or_zero (some z) = z

abbrev engine_weight : Weight → Model.ComboWeight
engine_weight w = record {
  method = w.method;
  weight = w.weight;
  fixed_amount_per_unit = w.fixed_amount_per_unit;
}

-- `engineItem`
unfoldable pub engine_item : CostItem → Model.CostItem
engine_item item = record {
  id = item.id;
  total = item.total_amount;
  method = item.method;
  fixed_amount_per_unit = amount_or_zero item.fixed_amount_per_unit;
  combo_weights = map engine_weight item.combo_weights;
  include_vacant = item.include_vacant;
  unit_ids = item.unit_ids;
}

abbrev engine_unit : BuildingUnit → ℤ → EngineUnit
engine_unit u occupants = record {
  id = u.id;
  occupants = occupants;
  area_m2 = u.area_m2;
  vacant = u.vacant;
}

-- The loop that snapshots the units.
unfoldable pub snapshot_units : ℕ → List BuildingUnit → Billing (List EngineUnit)
snapshot_units ref [] = pure []
snapshot_units ref (u ∷ us) = do
  occupants ← occupant_count_as_of u.id ref
  rest ← snapshot_units ref us
  pure (engine_unit u occupants ∷ rest)
