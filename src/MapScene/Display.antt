-- ===== src/MapScene/Display.antt =====
-- Where a dialogue box goes and what the camera shows: `computeDialoguePlacement`,
-- `computeCameraViewport` and `clampCamera` of packages/runtime/src/map-scene.ts. Sizes of canvases and
-- boxes are whole pixels, other lengths count thousandths of a pixel. A quotient is never taken: a
-- result counts its unit divided by what the code divides by, which its comment says.
use agentic_rpgmaker.Base.{
  ℕ, ◌+◌, ◌*◌, ◌/◌, suc, Bool, ◌||◌, Option, none, some, if◌then◌else◌, ltb, leb, nat_eq, ℤ, pos,
  negsuc, ◌+ℤ◌, ◌-ℤ◌, ltb_ℤ, leb_ℤ, min_ℤ, max_ℤ,
}
use agentic_rpgmaker.Behavior.{Vec2}
use agentic_rpgmaker.Entity.Shape.{Aabb}

abbrev pub opposite : ℕ → ℤ
opposite n = pos 0 -ℤ pos n

-- A product.
unfoldable pub times : ℕ → ℤ → ℤ
times n (pos m) = pos (n * m)
times n (negsuc m) = pos 0 -ℤ pos (n * suc m)

pub record Size : Type 0 where
  pub width : ℕ
  pub height : ℕ

-- `CameraView`, without the size of the viewport, which is not read
pub record CameraView : Type 0 where
  pub x : ℤ
  pub y : ℤ
  pub zoom : ℕ

pub record DialoguePlacementInput : Type 0 where
  pub tile_world : Aabb
  pub camera : CameraView
  pub backing : Size
  pub css : Size
  pub offset : Vec2
  pub box : Size
  pub gap : ℤ

-- `DIALOGUE_EDGE_MARGIN_PX`, and `DIALOGUE_ANCHOR_GAP_PX`, in thousandths
abbrev pub edge_margin : ℤ
edge_margin = pos 8000

abbrev pub anchor_gap : ℤ
anchor_gap = pos 8000

-- The rectangle of the anchor, in the units of the placement.
pub record CssRect : Type 0 where
  pub left : ℤ
  pub top : ℤ
  pub right : ℤ
  pub bottom : ℤ

-- Horizontal lengths are over twice the width of the backing store, vertical ones over its height.
pub record DialoguePlacement : Type 0 where
  pub left : ℤ
  pub top : ℤ
  pub anchor_rect : Option CssRect

-- `left`, of an anchored box, and `top`
abbrev pub left_of : (offset css box half_box margin anchor : ℤ) → ℤ
left_of offset css box half_box margin anchor =
    let max_left = offset +ℤ css -ℤ box -ℤ margin in
    if leb_ℤ (offset +ℤ margin) max_left
    then min_ℤ (max_ℤ (anchor -ℤ half_box) (offset +ℤ margin)) max_left
    else offset

abbrev pub top_of : (offset css box margin gap top bottom : ℤ) → ℤ
top_of offset css box margin gap top bottom =
    let above = top -ℤ gap -ℤ box in
    let below = bottom +ℤ gap in
    if leb_ℤ (offset +ℤ margin) above
    then above
    else if leb_ℤ (below +ℤ box +ℤ margin) (offset +ℤ css)
    then below
    else min_ℤ (max_ℤ above offset) (max_ℤ offset (offset +ℤ css -ℤ box))

abbrev pub px : ℕ → ℤ
px n = pos (n * 1000)

-- A point on the canvas, for its place in the world.
unfoldable pub on_canvas : ℕ → ℤ → ℤ → ℤ
unfolding times
on_canvas zoom at camera = times zoom (at -ℤ camera)

-- Twice the place of the middle of the tile on the canvas.
unfoldable pub twice_anchor_x : DialoguePlacementInput → ℤ
unfolding times
twice_anchor_x i =
    let t = i.tile_world in times i.camera.zoom (t.x +ℤ t.x +ℤ t.width -ℤ i.camera.x -ℤ i.camera.x)

abbrev pub is_degenerate : DialoguePlacementInput → Bool
is_degenerate i =
    nat_eq i.backing.width 0
    || nat_eq i.backing.height 0
    || nat_eq i.css.width 0
    || nat_eq i.css.height 0
    || nat_eq i.camera.zoom 0

-- The tile is not wholly on the canvas.
unfoldable pub is_off_screen : DialoguePlacementInput → Bool
unfolding on_canvas twice_anchor_x
is_off_screen i =
    let t = i.tile_world in
    ltb_ℤ (twice_anchor_x i) (pos 0)
    || ltb_ℤ (px (i.backing.width + i.backing.width)) (twice_anchor_x i)
    || ltb_ℤ (on_canvas i.camera.zoom t.y i.camera.y) (pos 0)
    || ltb_ℤ (px i.backing.height) (on_canvas i.camera.zoom (t.y +ℤ t.height) i.camera.y)

abbrev pub horizontal : DialoguePlacementInput → ℕ
horizontal i = i.backing.width + i.backing.width

-- `topCss` and `bottomCss`
unfoldable pub css_y : DialoguePlacementInput → ℤ → ℤ
unfolding times on_canvas
css_y i y =
    times i.backing.height i.offset.y +ℤ times i.css.height (on_canvas i.camera.zoom y i.camera.y)

-- The left and the right end of the tile
unfoldable pub css_x : DialoguePlacementInput → ℤ → ℤ
unfolding times on_canvas
css_x i x =
    times (horizontal i) i.offset.x
    +ℤ times (i.css.width + i.css.width) (on_canvas i.camera.zoom x i.camera.x)

unfoldable pub anchored : DialoguePlacementInput → DialoguePlacement
unfolding times twice_anchor_x css_y css_x
anchored i =
    let t = i.tile_world in
    let w = times (horizontal i) in
    let h = times i.backing.height in
    record {
      left =
          left_of (w i.offset.x) (w (px i.css.width)) (w (px i.box.width))
            (times i.backing.width (px i.box.width)) (w edge_margin)
            (w i.offset.x +ℤ times i.css.width (twice_anchor_x i));
      top =
          top_of (h i.offset.y) (h (px i.css.height)) (h (px i.box.height)) (h edge_margin)
            (h i.gap) (css_y i t.y) (css_y i (t.y +ℤ t.height));
      anchor_rect = some (record {
        left = css_x i t.x;
        top = css_y i t.y;
        right = css_x i (t.x +ℤ t.width);
        bottom = css_y i (t.y +ℤ t.height);
      });
    }

-- `computeDialoguePlacement`; the box is anchored where there is an anchor.
unfoldable pub compute_dialogue_placement : DialoguePlacementInput → DialoguePlacement
unfolding times is_off_screen anchored
compute_dialogue_placement i =
    if is_degenerate i || is_off_screen i
    then record {
      left = times (horizontal i) i.offset.x;
      top = times i.backing.height i.offset.y;
      anchor_rect = none;
    }
    else anchored i

-- `computeCameraZoom`; the height of a tile is positive.
unfoldable pub compute_camera_zoom : (canvas_height tile_size : ℕ) → ℕ
compute_camera_zoom canvas_height tile_size =
    let height = if ltb 0 canvas_height then canvas_height else 240 in
    let raw = height / (tile_size * 14) in
    let most = if leb 2 raw then raw else 2 in if leb most 16 then most else 16

-- `clampCamera`, of twice a value: the result is twice that of the code.
unfoldable pub clamp_camera : (value view map : ℤ) → ℤ
clamp_camera value view map =
    if leb_ℤ map view then map -ℤ view else min_ℤ (max_ℤ value (pos 0)) (map +ℤ map -ℤ view -ℤ view)

-- The viewport: its corner is over twice the zoom, its size over the zoom.
pub record CameraViewport : Type 0 where
  pub x : ℤ
  pub y : ℤ
  pub width : ℤ
  pub height : ℤ
  pub zoom : ℕ

abbrev pub size_or : ℕ → ℕ → ℕ
size_or n default = if ltb 0 n then n else default

-- `computeCameraViewport`, for what `renderPosition` gives
unfoldable pub compute_camera_viewport :
    (canvas : Size) (tile_size : ℕ) (map_px : Size) → Vec2 → CameraViewport
unfolding times compute_camera_zoom clamp_camera
compute_camera_viewport canvas tile_size map_px position =
    let zoom = compute_camera_zoom canvas.height tile_size in
    let width = px (size_or canvas.width 320) in
    let height = px (size_or canvas.height 240) in
    let twice = 2 * zoom * tile_size in
    record {
      x = clamp_camera (times twice position.x -ℤ width) width (px (zoom * map_px.width));
      y = clamp_camera (times twice position.y -ℤ height) height (px (zoom * map_px.height));
      width = width;
      height = height;
      zoom = zoom;
    }
