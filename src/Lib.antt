-- ===== src/Lib.antt =====
-- AgenticRPGMaker: a model of the engine of the game maker, and what makes it correct.
--
-- The program is a monorepo in TypeScript. packages/core holds the state of a game and the rules
-- that change it; packages/runtime drives it in a browser; packages/renderer draws it. A map document
-- becomes a scene of entities; the interpreter runs the pages of its events, whose commands change
-- variables, switches and entities, and announce what happened on the event bus; the runtime moves
-- the player over the grid of the map, reads the input and steps the simulation at a fixed rate.
--
-- Which file models which part (paths from the root of the repository):
--   Base       numbers, lists and dictionaries that all parts share. A number of the program is an
--              exact integer that counts thousandths (Base/Int), a `Map` an association list in
--              insertion order (Base/Dict).
--   Bus        packages/core/src/events/event-bus.ts: on, off, emit, clear, listenerCount. The sets
--              of handlers stand in a store, since `emit` holds one while its handlers run.
--   Behavior   packages/core/src/behavior: the rule-based patrol, `update` and `reset`. The product
--              and the quotient of fractions, and Math.hypot, are a parameter.
--   Thrown     the errors that packages/core throws: a call gives its outcome beside the state, which
--              keeps what was done before the throw.
--   Entity     packages/core/src/entity: components and their owners (Entity), shapes and boxes
--              (Entity/Shape), parents and children (Entity/Tree). Objects are places in a store.
--   Schema     packages/core/src/schema/map.ts: the types of a map document.
--   Scene      packages/core/src/scene/scene-graph.ts: fromMap, addEntity, removeEntity, the
--              registry of ids.
--   State      packages/core/src/interpreter/game-state.ts and events/game-events.ts.
--   Command    packages/core/src/interpreter/commands.ts: what the commands do (Command), and the
--              registry that builds them from the lines of a page (Command/Registry).
--   Interpreter  packages/core/src/interpreter/interpreter.ts: conditions, selectPage, runEvent and
--              the cache of built commands.
--   Movement   packages/runtime/src/movement.ts: buildCollisionGrid, isSolid, checkStep.
--   Input      packages/runtime/src/input.ts: held directions and queued presses.
--   GameLoop   packages/runtime/src/game-loop.ts: start, stop and tick.
--   Rate       packages/runtime/src/transport.ts: TokenBucket.
--   Batch      packages/renderer/src/batch.ts and pool.ts: SpriteBatch and its draw entries, and
--              their pool (Batch/Pool).
--   Texture    packages/renderer/src/texture-manager.ts: the operations (Texture), and the calls of the
--              loader with their answers (Texture/Run). tileset-registry.ts: Texture/Tilesets.
--   Cull       packages/renderer/src/tiles.ts: the tiles in view.
--   Network    packages/runtime/src/network-client.ts: the envelopes that arrive, the interpolation
--              of remote players, chat and state messages. The product of a length with a share of
--              the 120 ms is a parameter, of which the share 1 is known.
--   Protocol   packages/core/src/protocol/protocol-v1.ts: envelopes and the gate of their version. JSON
--              texts and the schemas of zod are a parameter.
--   Transport  packages/runtime/src/websocket-transport.ts: the state (Transport/State), the events of
--              the socket and the timers (Transport/Socket), the messages (Transport/Messages), and
--              all that may happen to a transport (Transport/Run).
--   MapScene   packages/runtime/src/map-scene.ts: the steps of the player over the grid, the input to
--              an open choice (MapScene/Choices), the dialogue and what the scene hears on the bus
--              (MapScene/Talk), the interaction with events (MapScene/Interact), a whole frame
--              (MapScene/Frame), the entry (MapScene/Entry), the saves (MapScene/Saves), the place of the
--              dialogue box and the camera (MapScene/Display).
--   Session    packages/runtime/src/scene.ts (Session/Manager) and game.ts (Session/Game): the scenes
--              of a game, its transfers and its saves, with the promises that it awaits.
--
-- Bounds and fuel. `traverse`, `getAncestors`, `getWorldPosition` and `destroy` recurse over the
-- tree and take fuel; Entity.Tree.Walk and Entity.Tree.Descent say how much is enough. The loop of
-- `tick` takes its accumulator for fuel, which GameLoop.Steps shows to be enough. Numbers are exact:
-- neither the rounding of floating point nor of the 32-bit buffer of the batch is modelled, and an
-- epsilon of 1e-9 acts on thousandths as any positive number below one.
--
-- Not modelled: the drawing of the map scene and the boot of the game in packages/runtime; the
-- renderers and DOM elements, and what an image loader and an atlas builder do; the field checks of
-- zod; the server in C++. Handlers of the bus that commands reach are subscribers outside the model:
-- an emission of a command is an entry of a log, which the map scene hears at the end of the call.
pub mod Base
pub mod Bus
pub mod Behavior
pub mod Thrown
pub mod Entity
pub mod Schema
pub mod Scene
pub mod State
pub mod Cull
pub mod Texture
pub mod Command
pub mod Interpreter
pub mod Movement
pub mod Rate
pub mod Protocol
pub mod Transport
pub mod Batch
pub mod Input
pub mod GameLoop
pub mod Network
pub mod MapScene
pub mod Session
