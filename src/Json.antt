-- ===== src/Json.antt =====
-- JavaScript values as the program meets them after `JSON.parse` and in object literals, and what
-- `JSON.stringify` prints for numbers and strings.
pub mod Printing
pub mod Access
use proveria.Common.{ℕ, Bool, true, false, List, [], ◌∷◌}
use proveria.Bytes.{Text}

-- `negsuc n` is -(n + 1).
pub data ℤ : Type 0 where
  pos : ℕ → ℤ
  negsuc : ℕ → ℤ

-- A double: an integer, any other finite number (by its text), or no finite number.
pub data Number : Type 0 where
  whole : ℤ → Number
  fractional : Text → Number
  nan infinity : Number

-- `foreign` is a bigint, symbol or function, with the name that `typeof` gives.
mutual
  pub data Json : Type 0 where
    null undefined : Json
    boolean : Bool → Json
    number : Number → Json
    string : Text → Json
    array : Items → Json
    object : Fields → Json
    foreign : Text → Json

  pub data Items : Type 0 where
    nil : Items
    cons : Json → Items → Items

  pub data Fields : Type 0 where
    end : Fields
    field : Text → Json → Fields → Fields

abbrev pub items : List Json → Items
items [] = nil
items (v ∷ vs) = cons v (items vs)

abbrev pub elements : Items → List Json
elements nil = []
elements (cons v vs) = v ∷ elements vs
