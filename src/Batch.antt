-- ===== src/Batch.antt =====
-- The sprite batch, packages/renderer/src/batch.ts, with the draw entries of pool.ts: quads are
-- staged in one buffer, and given to `onFlush` by texture. Numbers are exact, not rounded to 32 bits.
pub mod Order
pub mod Pool
pub mod Reuse
mod Tests
use agentic_rpgmaker.Base.{
  ℕ, zero, suc, ◌+◌, ◌*◌, ◌≡◌, Bool, true, false, not, ◌&&◌, Option, none, some, List, [], ◌∷◌,
  ◌++◌, String, if◌then◌else◌, ◌==◌, ltb, leb, nat_eq, length, get_elem?, or_else, ℤ, pos, ◌+ℤ◌,
  String_eq,
}

-- A quad to draw; `corners` are eight numbers.
pub record SpriteDrawEntry : Type 0 where
  pub texture_id : String
  pub x : ℤ
  pub y : ℤ
  pub w : ℤ
  pub h : ℤ
  pub u0 : ℤ
  pub v0 : ℤ
  pub u1 : ℤ
  pub v1 : ℤ
  pub r : ℤ
  pub g : ℤ
  pub b : ℤ
  pub a : ℤ
  pub flip_x : Bool
  pub flip_y : Bool
  pub corners : Option (List ℤ)

-- The eight floats of a vertex.
pub record Vertex : Type 0 where
  pub px : ℤ
  pub py : ℤ
  pub u : ℤ
  pub v : ℤ
  pub r : ℤ
  pub g : ℤ
  pub b : ℤ
  pub a : ℤ

abbrev corner_x : SpriteDrawEntry → ℕ → Option (List ℤ) → ℤ
corner_x e corner (some floats) = or_else (get_elem? floats (corner * 2)) (pos 0)
corner_x e corner none =
    if nat_eq corner 1 then e.x +ℤ e.w else if nat_eq corner 2 then e.x +ℤ e.w else e.x

abbrev corner_y : SpriteDrawEntry → ℕ → Option (List ℤ) → ℤ
corner_y e corner (some floats) = or_else (get_elem? floats (corner * 2 + 1)) (pos 0)
corner_y e corner none =
    if nat_eq corner 2 then e.y +ℤ e.h else if nat_eq corner 3 then e.y +ℤ e.h else e.y

-- `writeCorner`
unfoldable pub write_corner : SpriteDrawEntry → ℕ → Vertex
write_corner e corner =
    let u0 = if e.flip_x then e.u1 else e.u0 in
    let u1 = if e.flip_x then e.u0 else e.u1 in
    let v0 = if e.flip_y then e.v1 else e.v0 in
    let v1 = if e.flip_y then e.v0 else e.v1 in
    record {
      px = corner_x e corner e.corners;
      py = corner_y e corner e.corners;
      u = if nat_eq corner 1 then u1 else if nat_eq corner 2 then u1 else u0;
      v = if nat_eq corner 2 then v1 else if nat_eq corner 3 then v1 else v0;
      r = e.r;
      g = e.g;
      b = e.b;
      a = e.a;
    }

-- The six vertices that `writeQuad` puts into the buffer.
unfoldable pub write_quad : SpriteDrawEntry → List Vertex
unfolding write_corner
write_quad e =
    write_corner e 0
    ∷ write_corner e 1
    ∷ write_corner e 2
    ∷ write_corner e 0
    ∷ write_corner e 2
    ∷ write_corner e 3
    ∷ []

-- What a call of `onFlush` reads.
pub record Flush : Type 0 where
  pub texture_id : Option String
  pub quads : List (List Vertex)

-- `quads` is the part of the buffer that is staged; `flushes` are the calls of `onFlush` so far.
pub record SpriteBatch : Type 0 where
  pub max_quads : ℕ
  pub quads : List (List Vertex)
  pub texture_id : Option String
  pub flushes : List Flush

abbrev pub begin : SpriteBatch → SpriteBatch
begin b = record b { quads = []; texture_id = none }

abbrev pub is_full : SpriteBatch → Bool
is_full b = leb b.max_quads (length b.quads)

unfoldable pub flush : SpriteBatch → SpriteBatch
flush b = record b {
  flushes =
      if ltb 0 (length b.quads)
      then b.flushes ++ record { texture_id = b.texture_id; quads = b.quads } ∷ []
      else b.flushes;
  quads = [];
  texture_id = none;
}

-- `this.textureIdValue !== null && this.textureIdValue !== entry.textureId`
abbrev pub other_texture : Option String → String → Bool
other_texture none id = false
other_texture (some t) id = not (t == id)

unfoldable pub flush_if : Bool → SpriteBatch → SpriteBatch
unfolding flush
flush_if true b = flush b
flush_if false b = b

-- The two flushes of `push`, before the quad is written.
unfoldable pub make_room : SpriteDrawEntry → SpriteBatch → SpriteBatch
unfolding flush_if
make_room entry b =
    let b1 = flush_if (other_texture b.texture_id entry.texture_id) b in flush_if (is_full b1) b1

unfoldable pub push : SpriteDrawEntry → SpriteBatch → SpriteBatch
unfolding make_room write_quad
push entry b =
    let b1 = make_room entry b in
    record b1 { quads = b1.quads ++ write_quad entry ∷ []; texture_id = some entry.texture_id }
