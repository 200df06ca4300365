-- ===== src/Json.antt =====
-- Json::Value: the documents that the program builds and reads.
use lite_chat_server.Common.{Bool, Str, ℕ, ℤ}

mutual
  pub data Json : Type 0 where
    null : Json
    bool : Bool → Json
    int : ℤ → Json
    -- a double, by the numerator and the denominator of the quotient that it was computed from
    real : ℕ → ℕ → Json
    str : Str → Json
    arr : Items → Json
    obj : Fields → Json

  pub data Items : Type 0 where
    nil : Items
    cons : Json → Items → Items

  pub data Fields : Type 0 where
    end : Fields
    field : Str → Json → Fields → Fields
