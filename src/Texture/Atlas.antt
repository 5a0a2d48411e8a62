-- ===== src/Texture/Atlas.antt =====
-- Images on the atlas, `rebuildAtlas` of packages/renderer/src/texture-manager.ts.
use agentic_rpgmaker.Base.{
  ℕ, ◌+◌, ◌≤◌, ◌≡◌, ◌≢◌, ◌⊎◌, refl, true, some, List, [], ◌∷◌, arith, is_some, ℕ_eq,
}
use agentic_rpgmaker.Base.Dict.{Dict, get}
use agentic_rpgmaker.Texture.{LoadedImage, AtlasPlacement, pixels, place_from}
use agentic_rpgmaker.Texture.Run.{Event, make_world, run}
use agentic_rpgmaker.Texture.Cache.{run-IsCache}

-- Two places have no column in common.
abbrev pub IsApart : AtlasPlacement → AtlasPlacement → Type 0
IsApart p q = p.x + p.width ≤ q.x ⊎ q.x + q.width ≤ p.x

-- An image has a place, of its size, to the right of where the loop starts.
place_from-get :
    (x id : ℕ) (images : Dict ℕ LoadedImage) (p : AtlasPlacement)
    → get id (place_from x images) ≡ some p
    → x ≤ p.x
unfolding get place_from
place_from-get x id [] p eq = ground arith
place_from-get x id ((j, entry) ∷ images) p eq =
    ground (arith, place_from-get (x + pixels entry.image.width) id images p)

place_from-IsApart :
    (x i j : ℕ) (images : Dict ℕ LoadedImage) (p q : AtlasPlacement)
    → i ≢ j
    → get i (place_from x images) ≡ some p
    → get j (place_from x images) ≡ some q
    → IsApart p q
unfolding get place_from
place_from-IsApart x i j [] p q ne is_p is_q = ground arith
place_from-IsApart x i j ((k, entry) ∷ images) p q ne is_p is_q =
    let y : ℕ = x + pixels entry.image.width in
    ground (
      arith,
      place_from-get y i images p,
      place_from-get y j images q,
      place_from-IsApart y i j images p q ne,
      ℕ_eq.beq_iff k i,
      ℕ_eq.beq_iff k j,
    )

place_from-is_some :
    (x id : ℕ) (images : Dict ℕ LoadedImage)
    → is_some (get id (place_from x images)) ≡ is_some (get id images)
unfolding get place_from
place_from-is_some x id [] = refl
place_from-is_some x id ((j, entry) ∷ images) =
    ground (arith, place_from-is_some (x + pixels entry.image.width) id images)

-- After any run on a new manager, the places of two different ids on the atlas have no column in
-- common, and both ids have an image that is kept.
pub run-IsApart :
    (es : List Event) (i j : ℕ) (p q : AtlasPlacement)
    → i ≢ j
    → get i (run es make_world).manager.cached_placements ≡ some p
    → get j (run es make_world).manager.cached_placements ≡ some q
    → IsApart p q
      × (is_some (get i (run es make_world).manager.images) ≡ true)
      × (is_some (get j (run es make_world).manager.images) ≡ true)
run-IsApart es i j p q ne is_p is_q =
    let images = (run es make_world).manager.images in
    let placed = (run-IsCache es).placed in
    let of_i : get i (place_from 0 images) ≡ some p = rw (← placed) is_p in
    let of_j : get j (place_from 0 images) ≡ some q = rw (← placed) is_q in
    (
      place_from-IsApart 0 i j images p q ne of_i of_j,
      ground (arith, place_from-is_some 0 i images),
      ground (arith, place_from-is_some 0 j images),
    )
