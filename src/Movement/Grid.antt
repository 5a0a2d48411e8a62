-- ===== src/Movement/Grid.antt =====
-- Which tiles the grid of a map lists.
use agentic_rpgmaker.Base.{
  ℕ, zero, suc, ◌-◌, ◌<◌, ◌≡◌, refl, Bool, false, ◌&&◌, ◌||◌, List, [], ◌∷◌, ◌++◌, ◌==◌, any, arith,
  ltb, leb, nat_eq, ℤ, pos, ℤ_eq, ap, ◌∙◌,
}
use agentic_rpgmaker.Schema.{TileLayer, MapData}
use agentic_rpgmaker.Movement.{
  solid_in_row, solid_in_rows, is_collider_layer, solid_in_layers, build_collision_grid, is_listed,
}

-- The tile of a row, and of a layer, is above 0; there is none outside.
abbrev pub marks : List ℕ → ℕ → Bool
marks [] col = false
marks (value ∷ values) zero = ltb 0 value
marks (value ∷ values) (suc col) = marks values col

abbrev pub marks_tile : List (List ℕ) → ℕ → ℕ → Bool
marks_tile [] row col = false
marks_tile (values ∷ rows) zero col = marks values col
marks_tile (values ∷ rows) (suc row) col = marks_tile rows row col

any-append :
    {A : Type 0} (p : A → Bool) (xs ys : List A) → any p (xs ++ ys) ≡ (any p xs || any p ys)
any-append p [] ys = refl
any-append p (x ∷ xs) ys = ground (arith, any-append p xs ys)

marks_here :
    (value : ℕ) (values : List ℕ) (from x : ℕ)
    → x ≡ from
    → marks (value ∷ values) (x - from) ≡ ltb 0 value
marks_here value values from x e =
    let zeroth : x - from ≡ 0 = omega arith in ap (marks (value ∷ values)) zeroth

marks_there :
    (value : ℕ) (values : List ℕ) (from x : ℕ)
    → from < x
    → marks (value ∷ values) (x - from) ≡ marks values (x - suc from)
marks_there value values from x lt =
    let shift : x - from ≡ suc (x - suc from) = omega arith in ap (marks (value ∷ values)) shift

row_listed :
    (row from : ℕ) (values : List ℕ) (x y : ℕ)
    → is_listed (pos x) (pos y) (solid_in_row row from values)
      ≡ (nat_eq y row && leb from x && marks values (x - from))
unfolding is_listed solid_in_row
row_listed row from [] x y = ground arith
row_listed row from (value ∷ values) x y = ground (
  arith,
  row_listed row (suc from) values x y,
  marks_here value values from x,
  marks_there value values from x,
)

is_listed-append :
    (x y : ℤ) (l m : List (ℕ × ℕ)) → is_listed x y (l ++ m) ≡ (is_listed x y l || is_listed x y m)
unfolding is_listed
is_listed-append x y l m = any-append (λ t. x == pos t.0 && y == pos t.1) l m

marks_tile_here :
    (values : List ℕ) (rows : List (List ℕ)) (from x y : ℕ)
    → y ≡ from
    → marks_tile (values ∷ rows) (y - from) x ≡ marks values x
marks_tile_here values rows from x y e =
    let zeroth : y - from ≡ 0 = omega arith in ap (λ r. marks_tile (values ∷ rows) r x) zeroth

marks_tile_there :
    (values : List ℕ) (rows : List (List ℕ)) (from x y : ℕ)
    → from < y
    → marks_tile (values ∷ rows) (y - from) x ≡ marks_tile rows (y - suc from) x
marks_tile_there values rows from x y lt =
    let shift : y - from ≡ suc (y - suc from) = omega arith in
    ap (λ r. marks_tile (values ∷ rows) r x) shift

marks_0 : (values : List ℕ) (x : ℕ) → marks values (x - 0) ≡ marks values x
marks_0 values x = let same : x - 0 ≡ x = omega arith in ap (marks values) same

rows_listed :
    (from : ℕ) (rows : List (List ℕ)) (x y : ℕ)
    → is_listed (pos x) (pos y) (solid_in_rows from rows)
      ≡ (leb from y && marks_tile rows (y - from) x)
unfolding solid_in_rows is_listed
rows_listed from [] x y = ground arith
rows_listed from (values ∷ rows) x y =
    is_listed-append (pos x) (pos y) (solid_in_row from 0 values) (solid_in_rows (suc from) rows)
    ∙ ground (
      arith,
      row_listed from 0 values x y,
      rows_listed (suc from) rows x y,
      marks_0 values x,
      marks_tile_here values rows from x y,
      marks_tile_there values rows from x y,
    )

layers_listed :
    (layers : List TileLayer) (x y : ℕ)
    → is_listed (pos x) (pos y) (solid_in_layers layers)
      ≡ any (λ (layer : TileLayer). is_collider_layer layer && marks_tile layer.tiles y x) layers
unfolding solid_in_layers is_listed
layers_listed [] x y = refl
layers_listed (layer ∷ layers) x y =
    let same : y - 0 ≡ y = omega arith in
    let first : is_listed (pos x) (pos y) (solid_in_rows 0 layer.tiles)
        ≡ marks_tile layer.tiles y x =
      rows_listed 0 layer.tiles x y ∙ ground (arith, ap (λ r. marks_tile layer.tiles r x) same) in
    ground (
      arith,
      first,
      layers_listed layers x y,
      is_listed-append (pos x) (pos y) (solid_in_rows 0 layer.tiles) (solid_in_layers layers),
    )

-- `buildCollisionGrid` lists a tile exactly if some layer whose id or name contains "collider", in
-- any case, has a number above 0 at its row and column.
pub build_collision_grid_lem :
    (m : MapData) (x y : ℕ)
    → is_listed (pos x) (pos y) (build_collision_grid m).solid
      ≡ any (λ (layer : TileLayer). is_collider_layer layer && marks_tile layer.tiles y x) m.layers
unfolding build_collision_grid
build_collision_grid_lem m x y = layers_listed m.layers x y
