-- ===== src/Scene/Registry.antt =====
-- The registry of a scene under `addEntity`.
use agentic_rpgmaker.Base.{
  ℕ, suc, ◌<◌, ◌≡◌, refl, ◌≢◌, true, false, none, some, List, [], ◌∷◌, String, arith, inl, inr,
  Option-cases, nat_eq_iff, eq_iff, ℕ_eq, String_eq, ap, ◌∙◌,
}
use agentic_rpgmaker.Base.Dict.{Dict, get, insert, has, includes, get-insert}
use agentic_rpgmaker.Thrown.{scene_contains, ok, thrown}
use agentic_rpgmaker.Entity.{Heap}
use agentic_rpgmaker.Entity.Tree.{adopt, leave_parent, add_child, traverse}
use agentic_rpgmaker.Scene.{Scene, add_entity, index, subtree}
use agentic_rpgmaker.Scene.Build.{IsBuilt}

-- The registry gives entities by their own ids.
pub record IsScene (s : Scene) : Type 0 where
  pub rooted : s.root < s.heap.next_object
  pub allocated : (i : String) (e : ℕ) → get i s.by_id ≡ some e → e < s.heap.next_object
  pub named : (i : String) (e : ℕ) → get i s.by_id ≡ some e → (s.heap.objects e).id ≡ i

-- The ids that are registered.
abbrev pub Knows : Scene → List String → Type 0
Knows s known = (i : String) → has i s.by_id ≡ includes i known

module _ (p e : ℕ) (h : Heap) where
  add_child_orphan : (h.objects e).parent ≡ none → add_child p e h ≡ adopt p e h
  unfolding add_child leave_parent
  add_child_orphan alone = rw (alone, add_child) refl

  adopt_next : (adopt p e h).next_object ≡ h.next_object
  unfolding adopt
  adopt_next = refl

  adopt_named : (q : ℕ) → ((adopt p e h).objects q).id ≡ (h.objects q).id
  unfolding adopt
  adopt_named q = ground (arith, nat_eq_iff p q, nat_eq_iff e q)

  adopt_leaf : e ≢ p → (h.objects e).children ≡ [] → ((adopt p e h).objects e).children ≡ []
  unfolding adopt
  adopt_leaf ne leaf = ground (arith, nat_eq_iff p e, nat_eq_iff e e)

subtree_leaf :
    (h : Heap) (e n : ℕ)
    → h.next_object ≡ suc n
    → (h.objects e).children ≡ []
    → subtree h e ≡ e ∷ []
unfolding subtree
subtree_leaf h e n next leaf = rw (next, traverse, leaf) refl

pub index_leaf :
    (e n : ℕ) (s : Scene)
    → s.heap.next_object ≡ suc n
    → (s.heap.objects e).children ≡ []
    → get (s.heap.objects e).id s.by_id ≡ none
    → index e s ≡ (record s { by_id = insert (s.heap.objects e).id e s.by_id }, ok tt)
unfolding index
index_leaf e n s next leaf new = rw (subtree_leaf s.heap e n next leaf, new) refl

add_absent :
    (e : ℕ) (t : Scene)
    → get (t.heap.objects e).id t.by_id ≡ none
    → add_entity e t.root t ≡ index e (record t { heap = add_child t.root e t.heap })
unfolding add_entity
add_absent e t absent = rw (absent, add_entity) refl

add_leaf :
    (e n : ℕ) (t : Scene)
    → get (t.heap.objects e).id t.by_id ≡ none
    → (t.heap.objects e).parent ≡ none
    → (t.heap.objects e).children ≡ []
    → t.heap.next_object ≡ suc n
    → e ≢ t.root
    → add_entity e t.root t ≡ (
      record t { heap = adopt t.root e t.heap; by_id = insert (t.heap.objects e).id e t.by_id },
      ok tt,
    )
unfolding add_entity
add_leaf e n t absent orphan leaf next ne =
    add_absent e t absent
    ∙ ap (λ h. index e (record t { heap = h })) (add_child_orphan t.root e t.heap orphan)
    ∙ index_leaf e n (record t { heap = adopt t.root e t.heap }) (adopt_next t.root e t.heap ∙ next)
        (adopt_leaf t.root e t.heap ne leaf)
        (ap (λ i. get i t.by_id) (adopt_named t.root e t.heap e) ∙ absent)
    ∙ ap (λ i. (record t { heap = adopt t.root e t.heap; by_id = insert i e t.by_id }, ok tt))
        (adopt_named t.root e t.heap e)

none_of : (id : String) (m : Dict String ℕ) → has id m ≡ false → get id m ≡ none
none_of id m e = elim (Option-cases (get id m)) [
  | inl absent ↦ absent
  | inr (q, found) ↦ absurd (ground arith)
]

-- An entity that was just built, in a scene with these ids.
module _ (s : Scene) (known : List String) (scene : IsScene s) (knows : Knows s known) (id : String)
    (e : ℕ) (h : Heap) (built : IsBuilt id s.heap e h) where
  abbrev pub built_scene : Scene
  built_scene = record s { heap = h }

  pub add_known :
      includes id known ≡ true
      → add_entity e s.root built_scene ≡ (built_scene, thrown (scene_contains id))
  unfolding add_entity
  add_known old = let (types, v) = built in rw (v.named, knows id, old) refl

  abbrev pub added_scene : Scene
  added_scene = record built_scene { heap = adopt s.root e h; by_id = insert id e s.by_id }

  pub add_new : includes id known ≡ false → add_entity e s.root built_scene ≡ (added_scene, ok tt)
  add_new new =
      let (types, v) = built in
      add_leaf e s.heap.next_object (record s { heap = h })
        (ap (λ i. get i s.by_id) v.named ∙ none_of id s.by_id (knows id ∙ new)) v.orphan v.leaf
        v.next (omega (arith, v.place, scene.rooted))
      ∙ ap (λ i. (record s { heap = adopt s.root e h; by_id = insert i e s.by_id }, ok tt)) v.named

  pub added-IsScene : includes id known ≡ false → IsScene added_scene
  added-IsScene new =
      let (types, v) = built in
      record {
        rooted = omega (arith, scene.rooted, v.next, adopt_next s.root e h);
        allocated = λ i q found. ground (
          arith,
          get-insert id i e s.by_id,
          scene.allocated i q,
          v.next,
          v.place,
          adopt_next s.root e h,
        );
        named = λ i q found. ground (
          arith,
          adopt_named s.root e h q,
          get-insert id i e s.by_id,
          v.others q,
          v.named,
          scene.named i q,
          scene.allocated i q,
          eq_iff id i,
          v.place,
        );
      }

  pub added-Knows : Knows added_scene (id ∷ known)
  unfolding includes
  added-Knows i = ground (arith, get-insert id i e s.by_id, knows i)
