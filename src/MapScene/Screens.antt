-- ===== src/MapScene/Screens.antt =====
-- A screen with a dialogue box, and the theorems about the box and the camera at it.
use agentic_rpgmaker.Base.{◌*◌, ◌≤◌, refl, pos, ◌+ℤ◌, ◌-ℤ◌, whole, arith}
use agentic_rpgmaker.MapScene.Display.{
  times, Size, px, DialoguePlacementInput, CssRect, anchor_gap, css_x, css_y, on_canvas,
  twice_anchor_x, is_off_screen, anchored, compute_dialogue_placement, compute_camera_zoom,
  clamp_camera, compute_camera_viewport,
}
use agentic_rpgmaker.MapScene.Anchored.{IsAnchored, compute_dialogue_placement-IsAnchored}
use agentic_rpgmaker.MapScene.Camera.{IsInView, compute_camera_viewport-IsInView}

placing : Unit {0}
unfolding compute_dialogue_placement is_off_screen anchored css_x css_y on_canvas twice_anchor_x
    times ◌+ℤ◌ ◌-ℤ◌ compute_camera_viewport compute_camera_zoom clamp_camera
placing = tt

-- A speaker in the middle of a canvas that is shown at half its size.
abbrev screen : DialoguePlacementInput
screen = record {
  tile_world = record { x = whole 160; y = whole 120; width = whole 16; height = whole 16 };
  camera = record { x = pos 0; y = pos 0; zoom = 2 };
  backing = record { width = 640; height = 480 };
  css = record { width = 320; height = 240 };
  offset = record { x = whole 10; y = whole 20 };
  box = record { width = 200; height = 60 };
  gap = anchor_gap;
}

abbrev anchor : CssRect
anchor = record {
  left = pos 217600000;
  top = pos 67200000;
  right = pos 238080000;
  bottom = pos 74880000;
}

compute_dialogue_placement-IsAnchored_example :
    IsAnchored screen (compute_dialogue_placement screen) anchor
unfolding placing
compute_dialogue_placement-IsAnchored_example =
    compute_dialogue_placement-IsAnchored screen anchor refl (omega arith) (omega arith)
      (omega arith) (omega arith)

abbrev town_px : Size
town_px = record { width = 20 * 16; height = 10 * 16 }

compute_camera_viewport-IsInView_example :
    let v =
      compute_camera_viewport
        (record { width = 640; height = 480 })
        16
        town_px
        (record { x = pos 3500; y = pos 2000 }) in
    (2 ≤ v.zoom)
    × (v.zoom ≤ 16)
    × IsInView v.x (pos (2 * v.zoom * 16 * 3500)) v.width (px (v.zoom * (20 * 16)))
    × IsInView v.y (pos (2 * v.zoom * 16 * 2000)) v.height (px (v.zoom * (10 * 16)))
compute_camera_viewport-IsInView_example =
    compute_camera_viewport-IsInView (record { width = 640; height = 480 }) 16 20 10 3500 2000
      (omega arith) (omega arith)
