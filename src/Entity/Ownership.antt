-- ===== src/Entity/Ownership.antt =====
-- Who owns a component: the map of the entity and the `owner` of the component say the same.
use agentic_rpgmaker.Base.{ℕ, ◌≡◌, refl, ◌≢◌, Option, none, some, arith}
use agentic_rpgmaker.Base.Dict.{get, get-insert, get-delete}
use agentic_rpgmaker.Thrown.{ok, thrown, already_attached}
use agentic_rpgmaker.Entity.{
  ComponentType, ComponentType_eq, same_type_iff, type_of, Heap, add_component, get_component,
  removed, remove_component,
}

pub record IsOwned (h : Heap) : Type 0 where
  pub listed :
      (e : ℕ) (t : ComponentType) (c : ℕ)
      → get t (h.objects e).components ≡ some c
      → ((h.components c).owner ≡ some e) × (type_of (h.components c).payload ≡ t)
  pub owned :
      (c e : ℕ)
      → (h.components c).owner ≡ some e
      → get (type_of (h.components c).payload) (h.objects e).components ≡ some c

module _ (e c : ℕ) (h : Heap) (v : IsOwned h) where
  -- An `addComponent` that returns keeps the two sides together.
  pub add_component-IsOwned : (add_component e c h).1 ≡ ok tt → IsOwned (add_component e c h).0
  unfolding add_component
  add_component-IsOwned done = record {
    listed = λ e' t c' found. ground (
      arith,
      get-insert (type_of (h.components c).payload) t c (h.objects e).components,
      same_type_iff (type_of (h.components c).payload) t,
      v.listed e' t c',
      v.owned c e,
      v.listed e t c',
    );
    owned = λ c' e' o. ground (
      arith,
      get-insert (type_of (h.components c).payload) (type_of (h.components c').payload) c
          (h.objects e).components,
      same_type_iff (type_of (h.components c).payload) (type_of (h.components c').payload),
      v.owned c' e',
      v.owned c e,
    );
  }

  -- The component is then found in its entity, and the entities other than e keep theirs.
  pub add_component_found :
      (add_component e c h).1 ≡ ok tt
      → get_component (type_of (h.components c).payload) e (add_component e c h).0 ≡ some c
  unfolding add_component get_component
  add_component_found done = ground (
    arith,
    get-insert (type_of (h.components c).payload) (type_of (h.components c).payload) c
        (h.objects e).components,
    same_type_iff (type_of (h.components c).payload) (type_of (h.components c).payload),
  )

  -- `addComponent` is not atomic: for a component that another entity o owns it throws, and the
  -- component is left in the map of e all the same, with o for its owner. Where e has no component
  -- of the type before, the two sides disagree after the call.
  pub add_component_foreign :
      (o : ℕ)
      → (h.components c).owner ≡ some o
      → o ≢ e
      → get_component (type_of (h.components c).payload) e h ≡ none
      → ((add_component e c h).1 ≡ thrown (already_attached (h.objects e).id))
        × (get_component (type_of (h.components c).payload) e (add_component e c h).0 ≡ some c)
        × (((add_component e c h).0.components c).owner ≡ some o)
        × (¬ IsOwned (add_component e c h).0)
  unfolding add_component get_component
  add_component_foreign o owner other absent =
      let found : get (type_of (h.components c).payload)
            ((add_component e c h).0.objects e).components
          ≡ some c =
        ground (
          arith,
          get-insert (type_of (h.components c).payload) (type_of (h.components c).payload) c
              (h.objects e).components,
          same_type_iff (type_of (h.components c).payload) (type_of (h.components c).payload),
        ) in
      let kept : ((add_component e c h).0.components c).owner ≡ some o = ground arith in
      (
        ground arith,
        found,
        kept,
        λ w. ground (arith, w.listed e (type_of (h.components c).payload) c found),
      )

module _ (t : ComponentType) (e : ℕ) (h : Heap) (v : IsOwned h) where
  removed-IsOwned :
      (o : Option ℕ) → get t (h.objects e).components ≡ o → IsOwned (removed t e h o).0
  unfolding removed
  removed-IsOwned none found = v
  removed-IsOwned (some c) found = record {
    listed = λ e' t' c' f. ground (
      arith,
      get-delete t t' (h.objects e).components,
      same_type_iff t t',
      v.listed e' t' c',
      v.listed e t c,
      v.owned c e,
    );
    owned = λ c' e' o. ground (
      arith,
      get-delete t (type_of (h.components c').payload) (h.objects e).components,
      same_type_iff t (type_of (h.components c').payload),
      v.owned c' e',
      v.listed e t c,
    );
  }

  removed_absent :
      (o : Option ℕ)
      → get t (h.objects e).components ≡ o
      → get t ((removed t e h o).0.objects e).components ≡ none
  unfolding removed
  removed_absent none found = found
  removed_absent (some c) found =
      ground (arith, get-delete t t (h.objects e).components, same_type_iff t t)

  removed_owner :
      (o : Option ℕ) (c : ℕ)
      → get t (h.objects e).components ≡ o
      → o ≡ some c
      → ((removed t e h o).0.components c).owner ≡ none
  unfolding removed
  removed_owner none c found e' = cc
  removed_owner (some d) c found e' = ground arith

  removed_result : (o : Option ℕ) → (removed t e h o).1 ≡ o
  unfolding removed
  removed_result none = refl
  removed_result (some c) = refl

  -- `removeComponent` gives the component that was there, if any; afterwards the entity has none of
  -- the type, the component has no owner, and all else that is attached is still owned.
  pub remove_component_lem :
      ((remove_component t e h).1 ≡ get_component t e h)
      × (get_component t e (remove_component t e h).0 ≡ none)
      × ((c : ℕ)
          → get_component t e h ≡ some c
          → ((remove_component t e h).0.components c).owner ≡ none)
      × IsOwned (remove_component t e h).0
  unfolding remove_component get_component
  remove_component_lem = (
    removed_result (get t (h.objects e).components),
    removed_absent (get t (h.objects e).components) refl,
    λ c found. removed_owner (get t (h.objects e).components) c refl found,
    removed-IsOwned (get t (h.objects e).components) refl,
  )
