-- ===== src/Scene/FromMap.antt =====
-- Which maps `fromMap` builds a scene from.
use agentic_rpgmaker.Base.{
  ℕ, ◌≡◌, refl, ◌⊎◌, true, false, Option, none, some, List, [], ◌∷◌, ◌||◌, String, if◌then◌else◌,
  arith, inl, inr, Bool-cases, ℕ_eq, String_eq, ap, ◌∙◌, map, ℤ, All, whole, or_else, eq_iff,
}
use agentic_rpgmaker.Base.Dict.{get, insert, has, includes, beq_refl}
use agentic_rpgmaker.Thrown.{scene_contains, Outcome, ok, thrown, Throws, Ends, continue, for_each}
use agentic_rpgmaker.Schema.{MapEvent, MapData}
use agentic_rpgmaker.Entity.{GameObject, Heap, make_object}
use agentic_rpgmaker.Scene.{
  Scene, create_object, SceneGraphOptions, new_scene, add_entity, place_event, place_player,
  build_event_entity, build_player, from_map,
}
use agentic_rpgmaker.Scene.Build.{IsBuilt, HasRoute, build_event-IsBuilt, build_player-IsBuilt}
use agentic_rpgmaker.Scene.Registry.{
  IsScene, Knows, index_leaf, add_known, add_new, added-IsScene, added-Knows,
}

-- How a call ends that adds an entity with this id.
abbrev Added : List String → String → Scene × Outcome (Unit {0}) → Type 0
Added known id r =
    ((includes id known ≡ true) × (r.1 ≡ thrown (scene_contains id)))
    ⊎ ((includes id known ≡ false) × (r.1 ≡ ok tt) × IsScene r.0 × Knows r.0 (id ∷ known))

module _ (s : Scene) (known : List String) (scene : IsScene s) (knows : Knows s known)
    (id : String) where
  add_built :
      (r : Heap × Outcome ℕ)
      → Ends (IsBuilt id s.heap) r
      → Added known id (continue (λ e. add_entity e s.root) (record s { heap = r.0 }, r.1))
  add_built (h, ok e) built = elim (Bool-cases (includes id known)) [
    | inl old ↦ inl (
      old,
      ap (λ (x : Scene × Outcome (Unit {0})). x.1) (add_known s known scene knows id e h built old),
    )
    | inr new ↦ rw (add_new s known scene knows id e h built new) (
        inr (
          new,
          refl,
          added-IsScene s known scene knows id e h built new,
          added-Knows s known scene knows id e h built,
        ))
  ]
  add_built (h, thrown x) built = absurd built

place_event-Added :
    (s : Scene) (known : List String) (layer : ℤ) (event : MapEvent)
    → IsScene s
    → Knows s known
    → HasRoute event.behavior
    → Added known event.id (place_event layer event s)
unfolding place_event
place_event-Added s known layer event scene knows good =
    add_built s known scene knows event.id (build_event_entity event layer s.heap)
      (build_event-IsBuilt event layer s.heap good)

place_player-Added :
    (s : Scene) (known : List String) (options : SceneGraphOptions)
    → IsScene s
    → Knows s known
    → Added known "player" (place_player options s)
unfolding place_player
place_player-Added s known options scene knows =
    add_built s known scene knows "player" (build_player options s.heap)
      (build_player-IsBuilt options s.heap)

-- The first of the ids that is registered before its turn.
abbrev pub first_clash : List String → List String → Option String
first_clash known [] = none
first_clash known (id ∷ ids) =
    let rest = first_clash (id ∷ known) ids in if includes id known then some id else rest

abbrev pub ids : List MapEvent → List String
ids = map (λ (event : MapEvent). event.id)

-- How the building of a whole scene ends.
abbrev pub EndsAs : List String → List String → Scene × Outcome (Unit {0}) → Type 0
EndsAs known ids r =
    ((i : String) × (first_clash known ids ≡ some i) × (r.1 ≡ thrown (scene_contains i)))
    ⊎ ((first_clash known ids ≡ none)
        × (r.1 ≡ ok tt)
        × IsScene r.0
        × ((i : String) → has i r.0.by_id ≡ (includes i known || includes i ids)))

EndsAs-cons :
    (known : List String) (id : String) (ids : List String) (k : Throws Scene (Unit {0}))
    (r : Scene × Outcome (Unit {0}))
    → Added known id r
    → ((s : Scene) → IsScene s → Knows s (id ∷ known) → EndsAs (id ∷ known) ids (k s))
    → EndsAs known (id ∷ ids) (continue (λ _. k) r)
unfolding includes
EndsAs-cons known id ids k (s, thrown x) (inl (old, e)) rest = inl (id, rw old refl, e)
EndsAs-cons known id ids k (s, thrown x) (inr (new, e, _, _)) rest = cc
EndsAs-cons known id ids k (s, ok _) (inl (old, e)) rest = cc
EndsAs-cons known id ids k (s, ok _) (inr (new, e, scene, knows)) rest = elim (rest s scene knows) [
  | inl (i, clash, r) ↦ inl (i, rw new clash, r)
  | inr (clear, r, scene', has') ↦
      inr (rw new clear, r, scene', λ i. ground (arith, has' i, eq_iff id i))
]

for_each-EndsAs :
    (layer : ℤ) (events : List MapEvent) (s : Scene) (known : List String)
    → IsScene s
    → Knows s known
    → All (λ (event : MapEvent). HasRoute event.behavior) events
    → EndsAs known (ids events) (for_each events (place_event layer) s)
unfolding includes
for_each-EndsAs layer [] s known scene knows good =
    inr (refl, refl, scene, λ i. ground (arith, knows i))
for_each-EndsAs layer (event ∷ events) s known scene knows (good, more) =
    EndsAs-cons known event.id (ids events) (for_each events (place_event layer))
      (place_event layer event s) (place_event-Added s known layer event scene knows good)
      (λ s' scene' knows'. for_each-EndsAs layer events s' (event.id ∷ known) scene' knows' more)

rooted : Heap → Scene
unfolding create_object
rooted h = record {
  root = h.next_object;
  by_id = ("root", h.next_object) ∷ [];
  heap = (create_object (make_object "root" (some "Root") none none) h).0;
}

root_object :
    (h : Heap) → (rooted h).heap.objects h.next_object ≡ make_object "root" (some "Root") none none
unfolding rooted
root_object h = rw (beq_refl h.next_object) refl

new_scene_lem : (s : Scene) → new_scene s ≡ (rooted s.heap, ok tt)
unfolding new_scene rooted insert
new_scene_lem s =
    index_leaf s.heap.next_object s.heap.next_object
      (record { root = s.heap.next_object; by_id = []; heap = (rooted s.heap).heap }) refl
      (ap (λ (o : GameObject). o.children) (root_object s.heap)) refl
    ∙ ap
        (λ (o : GameObject). (
          record {
            root = s.heap.next_object;
            by_id = (o.id, s.heap.next_object) ∷ [];
            heap = (rooted s.heap).heap;
          },
          ok tt,
        ))
        (root_object s.heap)

rooted-IsScene : (h : Heap) → IsScene (rooted h) × Knows (rooted h) ("root" ∷ [])
unfolding rooted get includes
rooted-IsScene h = (
  record {
    rooted = omega arith;
    allocated = λ i e found. ground arith;
    named = λ i e found. ground (arith, eq_iff "root" i, root_object h);
  },
  λ i. ground arith,
)

-- `fromMap` registers the ids "root", "player" and those of the events, in this order, and throws
-- at the first that is registered already; so it returns exactly if the ids of the events are
-- distinct and none of them is "root" or "player". Then the registry holds these ids and no
-- other, and gives for each an entity that has it. The configs of behaviors have a waypoint each,
-- as `mapSchema` demands.
pub from_map-EndsAs :
    (map : MapData) (options : SceneGraphOptions) (s : Scene)
    → All (λ (event : MapEvent). HasRoute event.behavior) map.events
    → EndsAs ("root" ∷ []) ("player" ∷ ids map.events) (from_map map options s)
unfolding from_map
from_map-EndsAs map options s good =
    let (scene, knows) = rooted-IsScene s.heap in
    rw (new_scene_lem s) (
      EndsAs-cons ("root" ∷ []) "player" (ids map.events)
        (for_each map.events (place_event (or_else options.event_layer (whole 2))))
        (place_player options (rooted s.heap))
        (place_player-Added (rooted s.heap) ("root" ∷ []) options scene knows)
        (λ s' scene' knows'.
          for_each-EndsAs (or_else options.event_layer (whole 2)) map.events s'
            ("player" ∷ "root" ∷ []) scene' knows' good))
