-- ===== src/Batch/Order.antt =====
-- What a batch draws, and in which order.
use mathlib.Core.List.{append_assoc, append-nil}
use mathlib.Core.Path.{subst}
use agentic_rpgmaker.Base.{
  ℕ, suc, ◌≡◌, refl, ◌≤◌, ◌<◌, Bool, true, false, Option, none, some, List, [], ◌∷◌, ◌++◌, String,
  arith, All, All-append, flat_map, map, length, length-append, ap, ◌∙◌, sym, ltb, eq_iff,
  if◌then◌else◌,
}
use agentic_rpgmaker.Batch.{
  SpriteDrawEntry, Vertex, Flush, SpriteBatch, is_full, flush, other_texture, flush_if, make_room,
  push, write_quad,
}

-- Quads with the texture that they are drawn with.
abbrev pub with_texture : Option String → List (List Vertex) → List (Option String × List Vertex)
with_texture t quads = map (λ q. (t, q)) quads

abbrev pub drawn : Flush → List (Option String × List Vertex)
drawn f = with_texture f.texture_id f.quads

-- All that was flushed, and then what is staged.
abbrev pub output : SpriteBatch → List (Option String × List Vertex)
output b = flat_map drawn b.flushes ++ with_texture b.texture_id b.quads

-- A call of `onFlush` has a quad, and no more than the buffer holds.
abbrev pub IsFitting : ℕ → Flush → Type 0
IsFitting max f = (0 < length f.quads) × (length f.quads ≤ max)

pub record IsBatch (b : SpriteBatch) : Type 0 where
  pub untextured : b.texture_id ≡ none → b.quads ≡ []
  pub held : length b.quads ≤ b.max_quads
  pub fitting : All (IsFitting b.max_quads) b.flushes

map-append : {A B : Type 0} (f : A → B) (xs ys : List A) → map f (xs ++ ys) ≡ map f xs ++ map f ys
map-append f [] ys = refl
map-append f (x ∷ xs) ys = ap (λ l. f x ∷ l) (map-append f xs ys)

flat_map-append :
    {A B : Type 0} (f : A → List B) (xs ys : List A)
    → flat_map f (xs ++ ys) ≡ flat_map f xs ++ flat_map f ys
flat_map-append f [] ys = refl
flat_map-append f (x ∷ xs) ys =
    ap (λ l. f x ++ l) (flat_map-append f xs ys)
    ∙ sym (append_assoc (f x) (flat_map f xs) (flat_map f ys))

above_0 : (n : ℕ) → ltb 0 (suc n) ≡ true
above_0 n = ground arith

flushed_list :
    (t : Option String) (quads : List (List Vertex)) (flushes : List Flush) (max : ℕ)
    → length quads ≤ max
    → All (IsFitting max) flushes
    → (flat_map drawn (
            if ltb 0 (length quads)
            then flushes ++ record { texture_id = t; quads = quads } ∷ []
            else flushes)
          ++ []
        ≡ flat_map drawn flushes ++ with_texture t quads)
      × All (IsFitting max) (
          if ltb 0 (length quads)
          then flushes ++ record { texture_id = t; quads = quads } ∷ []
          else flushes)
flushed_list t [] flushes max le w = (refl, w)
flushed_list t (q ∷ quads) flushes max le w = rw (above_0 (length quads)) (
  append-nil (flat_map drawn (flushes ++ record { texture_id = t; quads = q ∷ quads } ∷ []))
      ∙ flat_map-append drawn flushes (record { texture_id = t; quads = q ∷ quads } ∷ [])
      ∙ ap (λ l. flat_map drawn flushes ++ l) (append-nil (with_texture t (q ∷ quads))),
  All-append (IsFitting max) flushes (record { texture_id = t; quads = q ∷ quads } ∷ []) w
      ((omega arith, le), tt),
)

flush-IsBatch : (b : SpriteBatch) → IsBatch b → (output (flush b) ≡ output b) × IsBatch (flush b)
unfolding flush
flush-IsBatch b v =
    let (same, fits) = flushed_list b.texture_id b.quads b.flushes b.max_quads v.held v.fitting in
    (same, record { untextured = λ e. refl; held = omega arith; fitting = fits })

flush_if-IsBatch :
    (q : Bool) (b : SpriteBatch)
    → IsBatch b
    → (output (flush_if q b) ≡ output b) × IsBatch (flush_if q b)
unfolding flush_if
flush_if-IsBatch true b v = flush-IsBatch b v
flush_if-IsBatch false b v = (refl, v)

-- A batch that can take a quad with this texture.
abbrev HasRoom : String → SpriteBatch → Type 0
HasRoom t b =
    (with_texture b.texture_id b.quads ≡ with_texture (some t) b.quads)
    × (length b.quads < b.max_quads)

same_texture :
    (o : Option String) (t : String) (quads : List (List Vertex))
    → (o ≡ none → quads ≡ [])
    → other_texture o t ≡ false
    → with_texture o quads ≡ with_texture (some t) quads
same_texture none t quads untextured e = rw (untextured refl) refl
same_texture (some u) t quads untextured e =
    let same : u ≡ t = ground (arith, eq_iff u t) in ap (λ s. with_texture (some s) quads) same

retextured :
    (t : String) (b : SpriteBatch) (q : Bool)
    → IsBatch b
    → other_texture b.texture_id t ≡ q
    → with_texture (flush_if q b).texture_id (flush_if q b).quads
      ≡ with_texture (some t) (flush_if q b).quads
unfolding flush_if flush
retextured t b true v e = refl
retextured t b false v e = same_texture b.texture_id t b.quads v.untextured e

emptied :
    (t : String) (b : SpriteBatch) (q : Bool)
    → 0 < b.max_quads
    → with_texture b.texture_id b.quads ≡ with_texture (some t) b.quads
    → is_full b ≡ q
    → HasRoom t (flush_if q b)
unfolding flush_if flush
emptied t b true some_room same e = (refl, some_room)
emptied t b false some_room same e = (same, ground arith)

flush_if_max : (q : Bool) (b : SpriteBatch) → (flush_if q b).max_quads ≡ b.max_quads
unfolding flush_if flush
flush_if_max true b = refl
flush_if_max false b = refl

make_room-HasRoom :
    (e : SpriteDrawEntry) (b : SpriteBatch)
    → 0 < b.max_quads
    → IsBatch b
    → (output (make_room e b) ≡ output b)
      × IsBatch (make_room e b)
      × ((make_room e b).max_quads ≡ b.max_quads)
      × HasRoom e.texture_id (make_room e b)
unfolding make_room
make_room-HasRoom e b some_room v =
    let other = other_texture b.texture_id e.texture_id in
    let b1 = flush_if other b in
    let (same1, v1) = flush_if-IsBatch other b v in
    let (same2, v2) = flush_if-IsBatch (is_full b1) b1 v1 in
    let max1 : b1.max_quads ≡ b.max_quads = flush_if_max other b in
    (
      same2 ∙ same1,
      v2,
      flush_if_max (is_full b1) b1 ∙ max1,
      emptied e.texture_id b1 (is_full b1) (omega (arith, max1))
          (retextured e.texture_id b other v refl) refl,
    )

staged :
    (e : SpriteDrawEntry) (b : SpriteBatch)
    → IsBatch b
    → HasRoom e.texture_id b
    → IsBatch (record b { quads = b.quads ++ write_quad e ∷ []; texture_id = some e.texture_id })
staged e b v (same, room) = record {
  untextured = λ none_of_it. cc;
  held = omega (arith, length-append b.quads (write_quad e ∷ []));
  fitting = v.fitting;
}

push-IsBatch :
    (e : SpriteDrawEntry) (b : SpriteBatch)
    → 0 < b.max_quads
    → IsBatch b
    → (output (push e b) ≡ output b ++ (some e.texture_id, write_quad e) ∷ [])
      × IsBatch (push e b)
      × ((push e b).max_quads ≡ b.max_quads)
unfolding push
push-IsBatch e b some_room v =
    let (kept, v1, max, (same, room)) = make_room-HasRoom e b some_room v in
    let b1 = make_room e b in
    (
      ap (λ l. flat_map drawn b1.flushes ++ l)
            (map-append (λ q. (some e.texture_id, q)) b1.quads (write_quad e ∷ []))
          ∙ sym (
              append_assoc (flat_map drawn b1.flushes) (with_texture (some e.texture_id) b1.quads)
                ((some e.texture_id, write_quad e) ∷ []))
          ∙ ap (λ l. (flat_map drawn b1.flushes ++ l) ++ (some e.texture_id, write_quad e) ∷ [])
              (sym same)
          ∙ ap (λ l. l ++ (some e.texture_id, write_quad e) ∷ []) kept,
      staged e b1 v1 (same, room),
      max,
    )

-- `push` for each entry.
unfoldable pub push_all : List SpriteDrawEntry → SpriteBatch → SpriteBatch
unfolding push
push_all [] b = b
push_all (e ∷ es) b = push_all es (push e b)

abbrev pub quads_of : List SpriteDrawEntry → List (Option String × List Vertex)
quads_of = map (λ (e : SpriteDrawEntry). (some e.texture_id, write_quad e))

push_all-IsBatch :
    (es : List SpriteDrawEntry) (b : SpriteBatch)
    → 0 < b.max_quads
    → IsBatch b
    → (output (push_all es b) ≡ output b ++ quads_of es)
      × IsBatch (push_all es b)
      × ((push_all es b).max_quads ≡ b.max_quads)
unfolding push_all
push_all-IsBatch [] b some_room v = (sym (append-nil (output b)), v, refl)
push_all-IsBatch (e ∷ es) b some_room v =
    let (out, v1, max) = push-IsBatch e b some_room v in
    let (out', v2, max') = push_all-IsBatch es (push e b) (omega (arith, max)) v1 in
    (
      out'
          ∙ ap (λ l. l ++ quads_of es) out
          ∙ append_assoc (output b) ((some e.texture_id, write_quad e) ∷ []) (quads_of es),
      v2,
      max' ∙ max,
    )

-- Pushing entries and flushing draws every quad once, in the order of the pushes, with the texture
-- of its entry: the flushes, one after another, are what was staged or flushed before and then
-- these quads. Each call of `onFlush` has at least one quad and at most `maxQuads`, so the buffer
-- is never written past its end. `maxQuads` is not 0.
pub flush-push_all :
    (es : List SpriteDrawEntry) (b : SpriteBatch)
    → 0 < b.max_quads
    → IsBatch b
    → (flat_map drawn (flush (push_all es b)).flushes ≡ output b ++ quads_of es)
      × All (IsFitting b.max_quads) (flush (push_all es b)).flushes
unfolding flush
flush-push_all es b some_room v =
    let (out, v1, max) = push_all-IsBatch es b some_room v in
    let (out', v2) = flush-IsBatch (push_all es b) v1 in
    (
      sym (append-nil (flat_map drawn (flush (push_all es b)).flushes)) ∙ out' ∙ out,
      subst (λ m. All (IsFitting m) (flush (push_all es b)).flushes) max v2.fitting,
    )
