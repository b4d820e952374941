-- ===== src/Canonical/Value.antt =====
-- The Python objects that canonical JSON is made of.
use novapanda.Base.{String, Bool}
use novapanda.Base.Int.{ℤ}

-- `float` and `other` stand for the objects that canonical JSON refuses. Keys are texts.
mutual
  pub data Json : Type 0 where
    null float other : Json
    bool : Bool → Json
    int : ℤ → Json
    str : String → Json
    arr : Items → Json
    obj : Fields → Json

  pub data Items : Type 0 where
    nil : Items
    cons : Json → Items → Items

  pub data Fields : Type 0 where
    done : Fields
    field : String → Json → Fields → Fields
