-- ===== src/Texture/Frames.antt =====
-- The frames of a texture, `getFrame` of packages/renderer/src/texture-manager.ts.
use mathlib.Core.Path.{subst}
use native.Mathlib.Nat.{div-lt_iff_lt-mul, mul-le-mul_right, zero-lt-suc}
use native.Mathlib.Omega.{mod_fact, div_any}
use agentic_rpgmaker.Base.{
  ℕ, zero, suc, ◌+◌, ◌*◌, ◌/◌, ◌%◌, ◌<◌, ◌≤◌, ◌≡◌, ◌≢◌, ◌⊎◌, Option, some, arith, leb, ltb, is_some,
  ℕ_eq, Bool-cases, inl, inr,
}
use agentic_rpgmaker.Base.Dict.{get}
use agentic_rpgmaker.Texture.{
  AtlasPlacement, TextureManager, FrameRect, frame_of, get_frame, frame_count,
}

cell_below : (c r i : ℕ) → i < c * r → (i % c < c) × (i / c < r)
cell_below zero r i lt = omega arith
cell_below (suc k) r i lt =
    (mod_fact i k, (div-lt_iff_lt-mul {k = suc k} {x = i} {y = r} (zero-lt-suc k)).1 (omega arith))

cells_differ : (c i j : ℕ) → i ≢ j → i % c < j % c ⊎ j % c < i % c ⊎ i / c < j / c ⊎ j / c < i / c
cells_differ c i j ne = grind (arith, div_any i c, div_any j c)

steps_apart : (a b w : ℕ) → a < b → a * w + w ≤ b * w
steps_apart a b w lt = omega (arith, mul-le-mul_right w lt)

-- Two frames of one texture have no point in common.
abbrev pub AreApart : FrameRect → FrameRect → Type 0
AreApart f g =
    f.x + f.width ≤ g.x ⊎ g.x + g.width ≤ f.x ⊎ f.y + f.height ≤ g.y ⊎ g.y + g.height ≤ f.y

-- A frame lies in the place of its texture.
abbrev pub IsInside : AtlasPlacement → FrameRect → Type 0
IsInside p f =
    (p.x * p.columns ≤ f.x)
    × (f.x + f.width ≤ p.x * p.columns + p.width * p.columns)
    × (f.y + f.height ≤ p.height * p.rows)

frame_of-IsInside :
    (p : AtlasPlacement) (i : ℕ) (f : FrameRect) → frame_of (some p) i ≡ some f → IsInside p f
frame_of-IsInside p i f is_f = elim (Bool-cases (leb (p.columns * p.rows) i)) [
  | inl le ↦ ground arith
  | inr gt ↦
      let lt : i < p.columns * p.rows = ground arith in
      let (below, above) = cell_below p.columns p.rows i lt in
      ground (
        arith,
        steps_apart (i % p.columns) p.columns p.width below,
        steps_apart (i / p.columns) p.rows p.height above,
      )
]

frame_of-AreApart :
    (p : AtlasPlacement) (i j : ℕ) (f g : FrameRect)
    → i ≢ j
    → frame_of (some p) i ≡ some f
    → frame_of (some p) j ≡ some g
    → AreApart f g
frame_of-AreApart p i j f g ne is_f is_g =
    let c = p.columns in
    ground (
      arith,
      cells_differ c i j ne,
      steps_apart (i % c) (j % c) p.width,
      steps_apart (j % c) (i % c) p.width,
      steps_apart (i / c) (j / c) p.height,
      steps_apart (j / c) (i / c) p.height,
    )

-- A frame that `getFrame` gives lies in the place of its texture on the atlas, its index is below
-- `frameCount`, and two frames of the texture with different indices have no point in common.
pub get_frame-AreApart :
    (id i j : ℕ) (m : TextureManager) (p : AtlasPlacement) (f g : FrameRect)
    → i ≢ j
    → get id m.cached_placements ≡ some p
    → get_frame id i m ≡ some f
    → get_frame id j m ≡ some g
    → IsInside p f × AreApart f g × (i < frame_count id m)
unfolding get_frame frame_count
get_frame-AreApart id i j m p f g ne is_p is_f is_g =
    let of_i : frame_of (some p) i ≡ some f =
      subst (λ (o : Option AtlasPlacement). frame_of o i ≡ some f) is_p is_f in
    let of_j : frame_of (some p) j ≡ some g =
      subst (λ (o : Option AtlasPlacement). frame_of o j ≡ some g) is_p is_g in
    (frame_of-IsInside p i f of_i, frame_of-AreApart p i j f g ne of_i of_j, ground arith)

-- `getFrame` gives a frame for exactly the indices below `frameCount`.
pub get_frame-count :
    (id i : ℕ) (m : TextureManager) → is_some (get_frame id i m) ≡ ltb i (frame_count id m)
unfolding get_frame frame_count
get_frame-count id i m = ground arith
