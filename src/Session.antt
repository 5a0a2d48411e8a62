-- ===== src/Session.antt =====
-- Playing a game across its maps: the scene manager (packages/runtime/src/scene.ts) and the game
-- handle (packages/runtime/src/game.ts).
pub mod Manager
pub mod Game
pub mod Pending
pub mod Laws
pub mod Replay
pub mod Disposal
mod Tests
