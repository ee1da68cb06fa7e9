-- ===== src/Persistence/Json.antt =====
-- `JsonValue` of src/quantiqmt/order/application/persistence/model.py.
use quanti_qmt.Base.{String, Bool}
use quanti_qmt.Base.Int.{ℤ}

mutual
  pub data Json : Type 0 where
    null : Json
    bool : Bool → Json
    int : ℤ → Json
    str : String → Json
    arr : Items → Json
    obj : Fields → Json

  pub data Items : Type 0 where
    nil : Items
    cons : Json → Items → Items

  pub data Fields : Type 0 where
    end : Fields
    field : String → Json → Fields → Fields
