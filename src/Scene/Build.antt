-- ===== src/Scene/Build.antt =====
-- What building an entity for a scene does to the store, and that it does not throw.
use agentic_rpgmaker.Base.{
  ℕ, suc, ◌≡◌, refl, ◌≢◌, false, Option, none, some, List, [], ◌∷◌, String, arith, inl, inr,
  Option-cases, nat_eq_iff, ℕ_eq, String_eq, ℤ, pos, whole,
}
use agentic_rpgmaker.Base.Dict.{get, includes, insert, get-insert, beq_refl}
use agentic_rpgmaker.Thrown.{ok, Ends, Ends-bind, Ends-mono, Throws, return, ◌>>=◌, ◌>>◌}
use agentic_rpgmaker.Behavior.{Config, Vec2, RuleBased, make}
use agentic_rpgmaker.Schema.{MapEvent}
use agentic_rpgmaker.Entity.{
  GameObject, Heap, Payload, transform, make_transform, make_object, sprite, behavior,
  transform_type, sprite_type, behavior_type, type_of, update, ComponentType, ComponentType_eq,
}
use agentic_rpgmaker.Scene.{
  create_object, create_component, build_behavior_from_config, behavior_component, dress, drive,
  set_behavior, build_event_entity, build_player, SceneGraphOptions,
}

-- A behavior config that `mapSchema` accepts has a waypoint.
abbrev pub HasRoute : Option Config → Type 0
HasRoute none = Unit {0}
HasRoute (some config) = config.waypoints ≢ []

List-cases : (l : List Vec2) → l ≢ [] → (w : Vec2) × (ws : List Vec2) × (l ≡ w ∷ ws)
List-cases [] ne = absurd (ne refl)
List-cases (w ∷ ws) ne = (w, ws, refl)

-- The store after an entity e was made with this id, and given components of these types.
pub record IsDressed (id : String) (types : List ComponentType) (h0 : Heap) (e : ℕ) (h : Heap)
    : Type 0 where
  pub place : e ≡ h0.next_object
  pub next : h.next_object ≡ suc h0.next_object
  pub named : (h.objects e).id ≡ id
  pub orphan : (h.objects e).parent ≡ none
  pub leaf : (h.objects e).children ≡ []
  pub bare : (t : ComponentType) → includes t types ≡ false → get t (h.objects e).components ≡ none
  pub others : (q : ℕ) → q ≢ e → h.objects q ≡ h0.objects q

create_object-IsDressed :
    (o : GameObject) (h : Heap)
    → o.parent ≡ none
    → o.children ≡ []
    → o.components ≡ []
    → Ends (IsDressed o.id [] h) (create_object o h)
unfolding create_object get
create_object-IsDressed o h p c d = record {
  place = refl;
  next = refl;
  named = ground (arith, nat_eq_iff h.next_object h.next_object);
  orphan = ground arith;
  leaf = ground arith;
  bare = λ t ne. ground arith;
  others = λ q ne. ground (arith, nat_eq_iff h.next_object q);
}

-- `addComponent` of a component that was just made.
created : ℕ → Payload → Heap → Heap
created e payload h = record {
  next_object = h.next_object;
  objects = update h.objects e (record (h.objects e) {
    components = insert (type_of payload) h.next_component (h.objects e).components;
  });
  next_component = suc h.next_component;
  components =
      update (update h.components h.next_component (record { owner = none; payload = payload }))
        h.next_component (record { owner = some e; payload = payload });
}

create_component_lem :
    (e : ℕ) (payload : Payload) (h : Heap)
    → get (type_of payload) (h.objects e).components ≡ none
    → create_component e payload h ≡ (created e payload h, ok h.next_component)
unfolding create_component created
create_component_lem e payload h free = rw (beq_refl h.next_component, free) refl

module _ (id : String) (types : List ComponentType) (h0 : Heap) (e : ℕ) (h : Heap)
    (v : IsDressed id types h0 e h) where
  created-IsDressed :
      (payload : Payload) → IsDressed id (type_of payload ∷ types) h0 e (created e payload h)
  unfolding created includes
  created-IsDressed payload = record {
    place = v.place;
    next = v.next;
    named = ground (arith, v.named);
    orphan = ground (arith, v.orphan);
    leaf = ground (arith, v.leaf);
    bare = λ t ne. ground (
      arith,
      v.bare t,
      get-insert (type_of payload) t h.next_component (h.objects e).components,
      nat_eq_iff e e,
    );
    others = λ q ne. ground (arith, v.others q ne, nat_eq_iff e q);
  }

  create_component-IsDressed :
      (payload : Payload)
      → get (type_of payload) (h.objects e).components ≡ none
      → Ends (λ _. IsDressed id (type_of payload ∷ types) h0 e) (create_component e payload h)
  unfolding create_component
  create_component-IsDressed payload new =
      rw (create_component_lem e payload h new) (created-IsDressed payload)

  set_behavior-IsDressed :
      (c : ℕ) (b : RuleBased) → Ends (λ _. IsDressed id types h0 e) (set_behavior c b h)
  unfolding set_behavior
  set_behavior-IsDressed c b = record {
    place = v.place;
    next = v.next;
    named = v.named;
    orphan = v.orphan;
    leaf = v.leaf;
    bare = v.bare;
    others = v.others;
  }

-- As above, with nothing said of the components.
abbrev pub IsBuilt : String → Heap → ℕ → Heap → Type 0
IsBuilt id h0 e h = (types : List ComponentType) × IsDressed id types h0 e h

add_component-IsBuilt :
    (id : String) (types : List ComponentType) (h0 : Heap) (e : ℕ) (h : Heap) (payload : Payload)
    → IsDressed id types h0 e h
    → includes (type_of payload) types ≡ false
    → Ends
        (λ _. IsDressed id (type_of payload ∷ types) h0 e)
        ((create_component e payload >>= λ _. return tt) h)
add_component-IsBuilt id types h0 e h payload v new =
    Ends-bind (λ _. IsDressed id (type_of payload ∷ types) h0 e)
      (λ _. IsDressed id (type_of payload ∷ types) h0 e) (λ _. return tt) (λ c h1 w. w)
      (create_component e payload) h
      (create_component-IsDressed id types h0 e h v payload (v.bare (type_of payload) new))

component-IsBuilt :
    (id : String) (h0 : Heap) (e : ℕ) (h : Heap)
    → IsBuilt id h0 e h
    → Ends (λ _. IsBuilt id h0 e) (behavior_component e h)
unfolding behavior_component
component-IsBuilt id h0 e h (types, v) =
    elim (Option-cases (get behavior_type (h.objects e).components)) [
      | inl absent ↦
          rw (absent, behavior_component)
            (Ends-mono (λ _. IsDressed id (behavior_type ∷ types) h0 e) (λ _. IsBuilt id h0 e)
              (λ c h1 w. (_, w)) (create_component e (behavior none) h)
              (create_component-IsDressed id types h0 e h v (behavior none) absent))
      | inr (c, found) ↦ rw (found, behavior_component) (types, v)
    ]

make-some :
    (config : Config) (w : Vec2) (ws : List Vec2)
    → config.waypoints ≡ w ∷ ws
    → (b : RuleBased) × (make config ≡ some b)
unfolding make
make-some config w ws e = elim (Option-cases (make config)) [
  | inl no_route ↦ absurd (ground arith)
  | inr found ↦ found
]

route_built :
    (P : Heap → Type 0) (config : Config) (h : Heap)
    → config.waypoints ≢ []
    → P h
    → Ends (λ _. P) (build_behavior_from_config config h)
unfolding build_behavior_from_config
route_built P config h good p =
    let (w, ws, route) = List-cases config.waypoints good in
    let (b, made) = make-some config w ws route in rw (made, build_behavior_from_config) p

dress-IsBuilt :
    (id : String) (h0 : Heap) (e : ℕ) (h : Heap) (o : Option String)
    → IsDressed id (transform_type ∷ []) h0 e h
    → Ends (λ _. IsBuilt id h0 e) (dress e o h)
unfolding dress includes
dress-IsBuilt id h0 e h none v = (_, v)
dress-IsBuilt id h0 e h (some texture) v =
    Ends-bind (λ _. IsDressed id (sprite_type ∷ transform_type ∷ []) h0 e) (λ _. IsBuilt id h0 e) _
      (λ _ h1 w.
        Ends-bind (λ _. IsDressed id (behavior_type ∷ sprite_type ∷ transform_type ∷ []) h0 e)
          (λ _. IsBuilt id h0 e) (λ _. return tt) (λ _ h2 u. (_, u))
          (create_component e (behavior none)) h1
          (create_component-IsDressed id _ h0 e h1 w (behavior none) (w.bare behavior_type refl)))
      (create_component e (sprite (record { texture = texture; frame = pos 0 })) >>= λ _. return tt)
      h
      (add_component-IsBuilt id _ h0 e h (sprite (record { texture = texture; frame = pos 0 })) v
        refl)

drive-IsBuilt :
    (id : String) (h0 : Heap) (e : ℕ) (h : Heap) (o : Option Config)
    → IsBuilt id h0 e h
    → HasRoute o
    → Ends (λ _. IsBuilt id h0 e) (drive e o h)
unfolding drive
drive-IsBuilt id h0 e h none v good = v
drive-IsBuilt id h0 e h (some config) v good =
    Ends-bind (λ _. IsBuilt id h0 e) (λ _. IsBuilt id h0 e) _
      (λ c h1 w.
        Ends-bind (λ _. IsBuilt id h0 e) (λ _. IsBuilt id h0 e) (set_behavior c)
          (λ b h2 (types, u). (types, set_behavior-IsDressed id types h0 e h2 u c b))
          (build_behavior_from_config config) h1 (route_built (IsBuilt id h0 e) config h1 good w))
      (behavior_component e) h (component-IsBuilt id h0 e h v)

module _ {A : Type 0} (Q : A → Heap → Type 0) (k : Throws Heap A) where
  then_component :
      (id : String) (types : List ComponentType) (h0 : Heap) (e : ℕ) (payload : Payload)
      → includes (type_of payload) types ≡ false
      → ((h : Heap) → IsDressed id (type_of payload ∷ types) h0 e h → Ends Q (k h))
      → (h : Heap) → IsDressed id types h0 e h
      → Ends Q (((create_component e payload >>= λ _. return tt) >> k) h)
  then_component id types h0 e payload new rest h v =
      Ends-bind (λ _. IsDressed id (type_of payload ∷ types) h0 e) Q (λ _. k) (λ _. rest)
        (create_component e payload >>= λ _. return tt) h
        (add_component-IsBuilt id types h0 e h payload v new)

-- `buildEventEntity` makes one entity and does not throw, for a config that the schema accepts.
pub build_event-IsBuilt :
    (event : MapEvent) (layer : ℤ) (h : Heap)
    → HasRoute event.behavior
    → Ends (IsBuilt event.id h) (build_event_entity event layer h)
unfolding build_event_entity includes
build_event-IsBuilt event layer h good =
    Ends-bind (IsDressed event.id [] h) (IsBuilt event.id h) _
      (λ e h1 v1.
        then_component (IsBuilt event.id h) _ event.id [] h e
          (transform (make_transform (some event.x) (some event.y) none)) refl
          (λ h2 v2.
            Ends-bind (λ _. IsBuilt event.id h e) (IsBuilt event.id h) _
              (λ _ h3 v3.
                Ends-bind (λ _. IsBuilt event.id h e) (IsBuilt event.id h) (λ _. return e)
                  (λ _ h4 v4. v4) (drive e event.behavior) h3
                  (drive-IsBuilt event.id h e h3 event.behavior v3 good))
              (dress e event.sprite) h2 (dress-IsBuilt event.id h e h2 event.sprite v2))
          h1 v1)
      (create_object (make_object event.id (some event.name) (some layer) none)) h
      (create_object-IsDressed (make_object event.id (some event.name) (some layer) none) h refl
        refl refl)

pub build_player-IsBuilt :
    (options : SceneGraphOptions) (h : Heap) → Ends (IsBuilt "player" h) (build_player options h)
unfolding build_player includes
build_player-IsBuilt options h =
    Ends-bind (IsDressed "player" [] h) (IsBuilt "player" h) _
      (λ e. then_component (IsBuilt "player" h) _ "player" [] h e _ refl (
        then_component (IsBuilt "player" h) _ "player" (transform_type ∷ []) h e _ refl (
          then_component (IsBuilt "player" h) (return e) "player"
            (sprite_type ∷ transform_type ∷ []) h e _ refl (λ h2 v. (_, v)))))
      (create_object (make_object "player" (some "Player") (some (whole 1)) none)) h
      (create_object-IsDressed (make_object "player" (some "Player") (some (whole 1)) none) h refl
        refl refl)
