-- ===== src/MapScene/Camera.antt =====
-- What the camera shows.
use native.Mathlib.Nat.{mul-le-mul_left}
use agentic_rpgmaker.Base.{
  ℕ, ◌+◌, ◌*◌, ◌≤◌, ◌≡◌, ℤ, pos, ◌+ℤ◌, ◌-ℤ◌, ◌≤ℤ◌, leb_ℤ, min_ℤ, max_ℤ, arith, int_laws, ◌⊎◌, inl,
  inr, Bool-cases,
}
use agentic_rpgmaker.MapScene.Display.{
  times, Size, px, size_or, compute_camera_zoom, clamp_camera, compute_camera_viewport,
}

compute_camera_zoom_lem :
    (canvas_height tile_size : ℕ)
    → (2 ≤ compute_camera_zoom canvas_height tile_size)
      × (compute_camera_zoom canvas_height tile_size ≤ 16)
unfolding compute_camera_zoom
compute_camera_zoom_lem canvas_height tile_size = (ground arith, ground arith)

-- On an axis with twice the place of the player: the player is in view; the view stays on a map
-- that is larger, and is centred on one that is not.
abbrev pub IsInView : (x place view map : ℤ) → Type 0
IsInView x place view map =
    (x ≤ℤ place)
    × (place ≤ℤ (x +ℤ view +ℤ view))
    × (((map ≤ℤ view) × (x +ℤ view ≡ map))
        ⊎ ((view ≤ℤ map) × (pos 0 ≤ℤ x) × ((x +ℤ view +ℤ view) ≤ℤ (map +ℤ map))))

-- A number that is clamped lies between the bounds, and is where it was or on a bound.
pub clamped_lem :
    (v low high : ℤ)
    → low ≤ℤ high
    → let m = min_ℤ (max_ℤ v low) high in
      (low ≤ℤ m) × (m ≤ℤ high) × (v ≤ℤ m ⊎ high ≤ℤ m) × (m ≤ℤ v ⊎ m ≤ℤ low)
clamped_lem v low high le = ground arith

small_view :
    (place view map : ℤ)
    → pos 0 ≤ℤ view
    → view ≤ℤ map
    → pos 0 ≤ℤ place
    → place ≤ℤ (map +ℤ map)
    → let x = min_ℤ (max_ℤ (place -ℤ view) (pos 0)) (map +ℤ map -ℤ view -ℤ view) in
      (x ≤ℤ place)
      × (place ≤ℤ (x +ℤ view +ℤ view))
      × (pos 0 ≤ℤ x)
      × ((x +ℤ view +ℤ view) ≤ℤ (map +ℤ map))
small_view place view map some_view small low high =
    let limit = map +ℤ map -ℤ view -ℤ view in
    let (at_least, at_most, not_below, not_above) =
      clamped_lem (place -ℤ view) (pos 0) limit (omega int_laws) in
    (omega int_laws, omega int_laws, at_least, omega int_laws)

clamp_camera-IsInView :
    (place view map : ℤ)
    → pos 0 ≤ℤ view
    → pos 0 ≤ℤ place
    → place ≤ℤ (map +ℤ map)
    → IsInView (clamp_camera (place -ℤ view) view map) place view map
unfolding clamp_camera
clamp_camera-IsInView place view map some_view low high = elim (Bool-cases (leb_ℤ map view)) [
  | inl large ↦
      let le : map ≤ℤ view = ground arith in
      rw large (omega int_laws, omega int_laws, inl (le, omega int_laws))
  | inr small ↦
      let le : view ≤ℤ map = ground arith in
      let (a, b, c, d) = small_view place view map some_view le low high in
      rw small (a, b, inr (le, c, d))
]

in_map :
    (zoom tile_size width x : ℕ)
    → x ≤ width * 1000
    → 2 * zoom * tile_size * x
      ≤ zoom * (width * tile_size) * 1000 + zoom * (width * tile_size) * 1000
in_map zoom tile_size width x le = grind (arith, mul-le-mul_left (2 * zoom * tile_size) le)

-- The player is on the map. Then the zoom is from 2 to 16, and on each axis the player is in view,
-- the view stays on the map where the map is larger, and is centred on it where it is not.
pub compute_camera_viewport-IsInView :
    (canvas : Size) (tile_size width height x y : ℕ)
    → x ≤ width * 1000
    → y ≤ height * 1000
    → let v =
        compute_camera_viewport canvas tile_size
          (record { width = width * tile_size; height = height * tile_size })
          (record { x = pos x; y = pos y }) in
      (2 ≤ v.zoom)
      × (v.zoom ≤ 16)
      × IsInView v.x (pos (2 * v.zoom * tile_size * x)) v.width (px (v.zoom * (width * tile_size)))
      × IsInView v.y
          (pos (2 * v.zoom * tile_size * y))
          v.height
          (px (v.zoom * (height * tile_size)))
unfolding compute_camera_viewport times
compute_camera_viewport-IsInView canvas tile_size width height x y on_x on_y =
    let zoom = compute_camera_zoom canvas.height tile_size in
    let (least, most) = compute_camera_zoom_lem canvas.height tile_size in
    (
      least,
      most,
      clamp_camera-IsInView (pos (2 * zoom * tile_size * x)) (px (size_or canvas.width 320))
          (px (zoom * (width * tile_size))) (omega int_laws) (omega int_laws)
          (omega (int_laws, in_map zoom tile_size width x on_x)),
      clamp_camera-IsInView (pos (2 * zoom * tile_size * y)) (px (size_or canvas.height 240))
          (px (zoom * (height * tile_size))) (omega int_laws) (omega int_laws)
          (omega (int_laws, in_map zoom tile_size height y on_y)),
    )
