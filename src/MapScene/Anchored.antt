-- ===== src/MapScene/Anchored.antt =====
-- Where an anchored dialogue box is.
use mathlib.Core.Path.{subst}
use native.Mathlib.Nat.{mul-le-mul_left}
use agentic_rpgmaker.Base.{
  ℕ, suc, ◌+◌, ◌*◌, ◌≤◌, ◌≡◌, refl, ap, Bool, true, false, ◌||◌, none, some, if◌then◌else◌, ℤ, pos,
  negsuc, ◌+ℤ◌, ◌-ℤ◌, ◌≤ℤ◌, ◌<ℤ◌, leb_ℤ, arith, int_laws, ◌⊎◌, inl, inr, Bool-cases,
}
use agentic_rpgmaker.MapScene.Camera.{clamped_lem}
use agentic_rpgmaker.MapScene.Display.{
  times, px, DialoguePlacementInput, DialoguePlacement, CssRect, edge_margin, left_of, top_of,
  on_canvas, twice_anchor_x, is_degenerate, is_off_screen, horizontal, css_y, css_x, anchored,
  compute_dialogue_placement,
}

times-nonnegative : (n : ℕ) (a : ℤ) → pos 0 ≤ℤ a → pos 0 ≤ℤ times n a
unfolding times
times-nonnegative n (pos a) le = omega int_laws
times-nonnegative n (negsuc a) le = omega int_laws

times-mono : (n : ℕ) (a b : ℤ) → a ≤ℤ b → times n a ≤ℤ times n b
unfolding times
times-mono n (pos a) (pos b) le =
    omega (int_laws, mul-le-mul_left {m = a} {n = b} n (omega int_laws))
times-mono n (pos a) (negsuc b) le = omega int_laws
times-mono n (negsuc a) (pos b) le = omega int_laws
times-mono n (negsuc a) (negsuc b) le =
    omega (int_laws, mul-le-mul_left {m = suc b} {n = suc a} n (omega int_laws))

left_of_lem :
    (offset css box half_box margin anchor : ℤ)
    → (margin +ℤ box +ℤ margin) ≤ℤ css
    → let left = left_of offset css box half_box margin anchor in
      ((offset +ℤ margin) ≤ℤ left) × ((left +ℤ box +ℤ margin) ≤ℤ (offset +ℤ css))
left_of_lem offset css box half_box margin anchor fits =
    let max_left = offset +ℤ css -ℤ box -ℤ margin in
    let le : (offset +ℤ margin) ≤ℤ max_left = omega int_laws in
    let is_le : leb_ℤ (offset +ℤ margin) max_left ≡ true = ground arith in
    let (low, high, up, down) = clamped_lem (anchor -ℤ half_box) (offset +ℤ margin) max_left le in
    rw is_le (low, omega int_laws)

-- The box is on the canvas, and clear of the tile by the gap, where there is room for that above the
-- tile or below.
abbrev pub IsPlaced : (offset css box margin gap top bottom y : ℤ) → Type 0
IsPlaced offset css box margin gap top bottom y =
    (offset ≤ℤ y)
    × ((y +ℤ box) ≤ℤ (offset +ℤ css))
    × (((y +ℤ box +ℤ gap) ≤ℤ top)
        ⊎ ((bottom +ℤ gap) ≤ℤ y)
        ⊎ ((top <ℤ (offset +ℤ margin +ℤ box +ℤ gap))
            × ((offset +ℤ css) <ℤ (bottom +ℤ gap +ℤ box +ℤ margin))))

top_of-IsPlaced :
    (offset css box margin gap top bottom : ℤ)
    → pos 0 ≤ℤ margin
    → pos 0 ≤ℤ gap
    → box ≤ℤ css
    → offset ≤ℤ top
    → top ≤ℤ bottom
    → bottom ≤ℤ (offset +ℤ css)
    → IsPlaced offset css box margin gap top bottom (top_of offset css box margin gap top bottom)
top_of-IsPlaced offset css box margin gap top bottom some_margin some_gap fits below_top order
      above_end =
    let above = top -ℤ gap -ℤ box in
    let below = bottom +ℤ gap in
    elim (Bool-cases (leb_ℤ (offset +ℤ margin) above)) [
      | inl room ↦
          let le : (offset +ℤ margin) ≤ℤ above = ground arith in
          rw room (omega int_laws, omega int_laws, inl (omega int_laws))
      | inr no_room ↦
          let gt : above <ℤ (offset +ℤ margin) = ground arith in
          elim (Bool-cases (leb_ℤ (below +ℤ box +ℤ margin) (offset +ℤ css))) [
            | inl room ↦
                let le : (below +ℤ box +ℤ margin) ≤ℤ (offset +ℤ css) = ground arith in
                rw (no_room, room) (omega int_laws, omega int_laws, inr (inl (omega int_laws)))
            | inr none_below ↦
                let over : (offset +ℤ css) <ℤ (below +ℤ box +ℤ margin) = ground arith in
                let limit = offset +ℤ css -ℤ box in
                let wide : offset ≤ℤ limit = omega int_laws in
                let is_wide : leb_ℤ offset limit ≡ true = ground arith in
                let (low, high, up, down) = clamped_lem above offset limit wide in
                rw (no_room, none_below, is_wide)
                  (low, omega int_laws, inr (inr (omega int_laws, omega int_laws)))
          ]
    ]

-- The room that a box needs, in the units of the placement.
box_fits :
    (k box css : ℕ) → box + 16 ≤ css → k * 8000 + k * (box * 1000) + k * 8000 ≤ k * (css * 1000)
box_fits k box css le =
    grind (arith, mul-le-mul_left {m = box * 1000 + 16000} {n = css * 1000} k (omega arith))

scale_comm : (a b : ℕ) → a * (b * 1000) ≡ b * (a * 1000)
scale_comm a b = grind arith

px_comm : (a b : ℕ) → times a (px b) ≡ times b (px a)
unfolding times
px_comm a b = ap pos (scale_comm a b)

-- Where the tile is on the canvas.
record IsOnCanvas (i : DialoguePlacementInput) : Type 0 where
  starts : pos 0 ≤ℤ on_canvas i.camera.zoom i.tile_world.y i.camera.y
  ends :
      on_canvas i.camera.zoom (i.tile_world.y +ℤ i.tile_world.height) i.camera.y
      ≤ℤ px i.backing.height

tile-IsOnCanvas : (i : DialoguePlacementInput) → is_off_screen i ≡ false → IsOnCanvas i
unfolding is_off_screen
tile-IsOnCanvas i on_screen = record { starts = ground arith; ends = ground arith }

module _ (i : DialoguePlacementInput) (on_screen : IsOnCanvas i) (some_gap : pos 0 ≤ℤ i.gap)
    (some_tile : pos 0 ≤ℤ i.tile_world.height) where
  ends_at :
      times i.css.height
          (on_canvas i.camera.zoom (i.tile_world.y +ℤ i.tile_world.height) i.camera.y)
        ≤ℤ times i.css.height (px i.backing.height)
      → css_y i (i.tile_world.y +ℤ i.tile_world.height)
        ≤ℤ (times i.backing.height i.offset.y +ℤ times i.backing.height (px i.css.height))
  unfolding css_y
  ends_at le =
      let same : times i.css.height (px i.backing.height)
          ≡ times i.backing.height (px i.css.height) =
        px_comm i.css.height i.backing.height in
      let le' : times i.css.height
            (on_canvas i.camera.zoom (i.tile_world.y +ℤ i.tile_world.height) i.camera.y)
          ≤ℤ times i.backing.height (px i.css.height) =
        subst
          (λ (v : ℤ).
            times i.css.height
              (on_canvas i.camera.zoom (i.tile_world.y +ℤ i.tile_world.height) i.camera.y)
            ≤ℤ v)
          same le in
      omega int_laws

  css_y_lem :
      (times i.backing.height i.offset.y ≤ℤ css_y i i.tile_world.y)
      × (css_y i i.tile_world.y ≤ℤ css_y i (i.tile_world.y +ℤ i.tile_world.height))
      × (css_y i (i.tile_world.y +ℤ i.tile_world.height)
          ≤ℤ (times i.backing.height i.offset.y +ℤ times i.backing.height (px i.css.height)))
  unfolding css_y
  css_y_lem =
      let zoom = i.camera.zoom in
      let y = i.tile_world.y in
      let bottom = y +ℤ i.tile_world.height in
      let at_top = on_canvas zoom y i.camera.y in
      let at_bottom = on_canvas zoom bottom i.camera.y in
      let order : at_top ≤ℤ at_bottom =
        times-mono zoom (y -ℤ i.camera.y) (bottom -ℤ i.camera.y) (omega int_laws) in
      let from_top = times-nonnegative i.css.height at_top on_screen.starts in
      let downwards = times-mono i.css.height at_top at_bottom order in
      let to_end = times-mono i.css.height at_bottom (px i.backing.height) on_screen.ends in
      (omega int_laws, omega int_laws, ends_at to_end)

-- The box is on the canvas with its margins, and at the height that `IsPlaced` says.
abbrev pub IsAnchored : DialoguePlacementInput → DialoguePlacement → CssRect → Type 0
IsAnchored i p r =
    let w = times (horizontal i) in
    let h = times i.backing.height in
    ((w i.offset.x +ℤ w edge_margin) ≤ℤ p.left)
    × ((p.left +ℤ w (px i.box.width) +ℤ w edge_margin) ≤ℤ (w i.offset.x +ℤ w (px i.css.width)))
    × IsPlaced (h i.offset.y) (h (px i.css.height)) (h (px i.box.height)) (h edge_margin) (h i.gap)
        r.top r.bottom p.top

fits_across :
    (i : DialoguePlacementInput)
    → i.box.width + 16 ≤ i.css.width
    → (times (horizontal i) edge_margin
        +ℤ times (horizontal i) (px i.box.width)
        +ℤ times (horizontal i) edge_margin)
      ≤ℤ times (horizontal i) (px i.css.width)
unfolding times
fits_across i le = omega (int_laws, box_fits (horizontal i) i.box.width i.css.width le)

fits_down :
    (i : DialoguePlacementInput)
    → i.box.height ≤ i.css.height
    → times i.backing.height (px i.box.height) ≤ℤ times i.backing.height (px i.css.height)
fits_down i le = times-mono i.backing.height (px i.box.height) (px i.css.height) (omega arith)

-- The anchor of an anchored box.
abbrev rect_of : DialoguePlacementInput → CssRect
unfolding css_x css_y
rect_of i = record {
  left = css_x i i.tile_world.x;
  top = css_y i i.tile_world.y;
  right = css_x i (i.tile_world.x +ℤ i.tile_world.width);
  bottom = css_y i (i.tile_world.y +ℤ i.tile_world.height);
}

anchored-IsAnchored :
    (i : DialoguePlacementInput)
    → is_off_screen i ≡ false
    → i.box.width + 16 ≤ i.css.width
    → i.box.height ≤ i.css.height
    → pos 0 ≤ℤ i.gap
    → pos 0 ≤ℤ i.tile_world.height
    → IsAnchored i (anchored i) (rect_of i)
unfolding anchored rect_of
anchored-IsAnchored i on_screen across down some_gap some_tile =
    let w = times (horizontal i) in
    let h = times i.backing.height in
    let (starts, order, ends) = css_y_lem i (tile-IsOnCanvas i on_screen) some_gap some_tile in
    let (left, right) =
      left_of_lem (w i.offset.x) (w (px i.css.width)) (w (px i.box.width))
        (times i.backing.width (px i.box.width)) (w edge_margin)
        (w i.offset.x +ℤ times i.css.width (twice_anchor_x i)) (fits_across i across) in
    (
      left,
      right,
      top_of-IsPlaced (h i.offset.y) (h (px i.css.height)) (h (px i.box.height)) (h edge_margin)
          (h i.gap) (css_y i i.tile_world.y) (css_y i (i.tile_world.y +ℤ i.tile_world.height))
          (times-nonnegative i.backing.height edge_margin (omega arith))
          (times-nonnegative i.backing.height i.gap some_gap) (fits_down i down) starts order ends,
    )

none_anchored :
    (b : Bool) (o p : DialoguePlacement) (r : CssRect)
    → b ≡ true
    → o.anchor_rect ≡ none
    → (if b then o else p).anchor_rect ≡ some r
    → ⊥
none_anchored true o p r nowhere bare e = cc
none_anchored false o p r nowhere bare e = cc

unanchored : DialoguePlacementInput → DialoguePlacement
unfolding times
unanchored i = record {
  left = times (horizontal i) i.offset.x;
  top = times i.backing.height i.offset.y;
  anchor_rect = none;
}

-- A dialogue box is anchored, with an anchor r; it is at most as high as the canvas, and with its
-- margins at most as wide; the gap and the height of the tile are not negative. Then the box is on the
-- canvas, with a margin at its sides, and it is clear of the anchor by the gap, above or below it,
-- unless there is room on neither side.
pub compute_dialogue_placement-IsAnchored :
    (i : DialoguePlacementInput) (r : CssRect)
    → (compute_dialogue_placement i).anchor_rect ≡ some r
    → i.box.width + 16 ≤ i.css.width
    → i.box.height ≤ i.css.height
    → pos 0 ≤ℤ i.gap
    → pos 0 ≤ℤ i.tile_world.height
    → IsAnchored i (compute_dialogue_placement i) r
unfolding compute_dialogue_placement anchored rect_of unanchored
compute_dialogue_placement-IsAnchored i r is_anchored across down some_gap some_tile =
    elim (Bool-cases (is_degenerate i || is_off_screen i)) [
      | inl nowhere ↦ absurd (
          none_anchored (is_degenerate i || is_off_screen i) (unanchored i) (anchored i) r nowhere
            refl is_anchored)
      | inr somewhere ↦
          let on_screen : is_off_screen i ≡ false = ground arith in
          let same : rect_of i ≡ r = ground (arith, somewhere, is_anchored) in
          subst (λ (q : CssRect). IsAnchored i (compute_dialogue_placement i) q) same
            (rw somewhere (anchored-IsAnchored i on_screen across down some_gap some_tile))
    ]
