-- ===== src/Schema.antt =====
-- The map document that the engine works on, packages/core/src/schema/map.ts: the inferred types,
-- and the cross-field check of `mapSchema`. The field checks themselves are the library zod's.
use agentic_rpgmaker.Base.{ℕ, Bool, ◌&&◌, Option, List, String, ℤ, ◌==◌, ℕ_eq, length, all}
use agentic_rpgmaker.Base.Dict.{Dict}
use agentic_rpgmaker.Behavior.{Config}

-- A value of type `unknown`, as far as the engine looks at it: a number counts thousandths. `not_finite` is NaN or an infinity,
-- `other` an object or an array.
pub data Value : Type 0 where
  text : String → Value
  number : ℤ → Value
  not_finite : (is_nan : Bool) → Value
  boolean : Bool → Value
  null undefined other : Value

pub record EventCommand : Type 0 where
  pub cmd : String
  pub args : List Value

pub data ConditionOp : Type 0 where
  eq ne gt gte lt lte : ConditionOp

pub data Condition : Type 0 where
  always : Condition
  switch : (switch_id : String) (value : Bool) → Condition
  variable : (variable_id : String) (op : ConditionOp) (value : ℤ) → Condition

-- `place` stands for the identity of the page's object.
pub record EventPage : Type 0 where
  pub place : ℕ
  pub condition : Condition
  pub commands : List EventCommand

pub record MapEvent : Type 0 where
  pub id : String
  pub name : String
  pub x : ℤ
  pub y : ℤ
  pub sprite : Option String
  pub behavior : Option Config
  pub pages : List EventPage

-- A layer's `type` is the literal "tile"; its `data` is `tiles` here.
pub record TileLayer : Type 0 where
  pub id : String
  pub name : String
  pub opacity : ℤ
  pub visible : Bool
  pub tiles : List (List ℕ)

pub record MapData : Type 0 where
  pub id : String
  pub name : String
  pub tile_size : ℕ
  pub width : ℕ
  pub height : ℕ
  pub tileset : String
  pub layers : List TileLayer
  pub events : List MapEvent
  pub variables : Dict String ℤ
  pub switches : Dict String Bool

-- The refinement of `mapSchema`: each layer has `height` rows of `width` tiles.
unfoldable pub layers_fit : MapData → Bool
layers_fit m =
    all
      (λ (layer : TileLayer).
        length layer.tiles == m.height && all (λ (row : List ℕ). length row == m.width) layer.tiles)
      m.layers
