-- ===== src/Batch/Tests.antt =====
-- A frame with three quads, and the theorem about batches at it.
use agentic_rpgmaker.Base.{
  ℕ, ◌≡◌, refl, false, Option, none, some, List, [], ◌∷◌, ◌++◌, String, pos, arith, flat_map, map,
  All, length, String_eq,
}
use agentic_rpgmaker.Batch.Pool.{
  make_pool, PoolCall, acquire_one, clear_all, release_one, write_one, run,
}
use agentic_rpgmaker.Batch.Reuse.{IsPool, run-IsPool}
use agentic_rpgmaker.Batch.{SpriteDrawEntry, SpriteBatch, Flush, flush}
use agentic_rpgmaker.Batch.Order.{
  IsBatch, IsFitting, drawn, output, quads_of, push_all, flush-push_all,
}

abbrev tile : String → ℕ → SpriteDrawEntry
tile texture_id x = record {
  texture_id = texture_id;
  x = pos x;
  y = pos 0;
  w = pos 16;
  h = pos 16;
  u0 = pos 0;
  v0 = pos 0;
  u1 = pos 1;
  v1 = pos 1;
  r = pos 1;
  g = pos 1;
  b = pos 1;
  a = pos 1;
  flip_x = false;
  flip_y = false;
  corners = none;
}

abbrev empty_batch : SpriteBatch
empty_batch = record { max_quads = 2; quads = []; texture_id = none; flushes = [] }

empty-IsBatch : IsBatch empty_batch
empty-IsBatch = record { untextured = λ e. refl; held = omega arith; fitting = tt }

abbrev tiles : List SpriteDrawEntry
tiles = tile "grass" 0 ∷ tile "grass" 16 ∷ tile "grass" 32 ∷ tile "tree" 0 ∷ []

flush-push_all_example :
    (flat_map drawn (flush (push_all tiles empty_batch)).flushes
      ≡ output empty_batch ++ quads_of tiles)
    × All (IsFitting empty_batch.max_quads) (flush (push_all tiles empty_batch)).flushes
flush-push_all_example = flush-push_all tiles empty_batch (omega arith) empty-IsBatch

three_flushes :
    map {B = Option String × ℕ}
      (λ (f : Flush). (f.texture_id, length f.quads))
      (flush (push_all tiles empty_batch)).flushes
    ≡ (some "grass", 2) ∷ (some "grass", 1) ∷ (some "tree", 1) ∷ []
unfolding flush push_all
three_flushes = refl

abbrev blank : ℕ
blank = 0

abbrev wiped : ℕ → ℕ
wiped n = 7

-- Two entries, of which one is changed, released and acquired again.
abbrev calls : List (PoolCall blank wiped)
calls =
    acquire_one
    ∷ acquire_one
    ∷ write_one 0 5
    ∷ release_one 0
    ∷ release_one 0
    ∷ acquire_one
    ∷ release_one 1
    ∷ clear_all
    ∷ []

run-IsPool_example :
    IsPool blank wiped
      (run blank wiped calls (record { pool = make_pool blank wiped 1; held = [] }))
run-IsPool_example = run-IsPool blank wiped 1 calls
