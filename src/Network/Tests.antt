-- ===== src/Network/Tests.antt =====
-- A room with one other player, and the theorems about the client at it.
use agentic_rpgmaker.Base.{
  ℕ, ◌*◌, ◌/◌, ◌+◌, ◌-◌, ℤ, negsuc, ap, ◌+ℤ◌, ◌-ℤ◌, ◌≡◌, refl, true, false, none, some, List, [],
  ◌∷◌, length, pos, arith, String_eq,
}
use agentic_rpgmaker.Base.Dict.{get}
use agentic_rpgmaker.Behavior.{down, right}
use agentic_rpgmaker.Rate.{make_bucket}
use agentic_rpgmaker.Network.{
  NetworkClient, PlayerState, RemotePlayer, welcome, player_state, send_chat, Product, with_state,
  handle_remote_state,
}
use agentic_rpgmaker.Network.Remote.{
  NetworkEvent, receive, pass, IsBound, target_of, promises, run, run-IsBound,
}
use agentic_rpgmaker.Network.Display.{update_all, shown_after, update_all-state}
use agentic_rpgmaker.Network.Sending.{flush_all}

running : Unit {0}
unfolding run send_chat flush_all
running = tt

-- Products are rounded down to thousandths.
abbrev part : ℤ → ℕ → ℤ
part (pos d) ms = pos (d * ms / 120)
part (negsuc d) ms = negsuc ((d * ms + ms - 1) / 120)

part_1 : (d : ℤ) → part d 120 ≡ d
part_1 (pos d) = ap pos (omega arith)
part_1 (negsuc d) = ap negsuc (omega arith)

abbrev exact : Product
exact = record { times = part; times_1 = part_1 }

abbrev standing : PlayerState
standing = record { x = pos 3000; y = pos 4000; direction = down; animation = none }

abbrev walked : PlayerState
walked = record { x = pos 4000; y = pos 4000; direction = right; animation = some "walk" }

abbrev client : NetworkClient
client = record {
  session_id = none;
  connected = true;
  remote = [];
  state_bucket = make_bucket 10 15 0;
  chat_bucket = make_bucket 2 2 0;
  pending_state = some standing;
  last_sent_state = none;
  sent = [];
  notices = [];
}

abbrev visit : List NetworkEvent
visit =
    receive (
      welcome "me" (
        record { session_id = "me"; player_name = "Me"; state = none }
        ∷ record { session_id = "you"; player_name = "You"; state = some standing }
        ∷ []))
    ∷ pass 16
    ∷ receive (player_state (some "you") (some walked))
    ∷ receive (player_state (some "ghost") none)
    ∷ []

run-IsBound_example : IsBound (run exact visit client).remote (promises visit (λ s. none))
unfolding get
run-IsBound_example = run-IsBound exact visit client (λ s. none) (λ s. refl)

abbrev you : RemotePlayer
you = with_state "you" standing none

abbrev room : NetworkClient
room = record client { remote = ("you", you) ∷ [] }

-- Half a window, and a whole one.
update_all-state_example :
    (q : RemotePlayer) × (get "you"
        (update_all exact (60 ∷ []) (handle_remote_state (some "you") (some walked) room)).remote
      ≡ some q)
    × (q.x ≡ shown_after exact you.x walked.x 60)
    × (q.y ≡ shown_after exact you.y walked.y 60)
unfolding get
update_all-state_example = update_all-state exact "you" walked you room 60 [] refl

shown_half : shown_after exact you.x walked.x 60 ≡ pos 3500
unfolding ◌+ℤ◌ ◌-ℤ◌
shown_half = refl

abbrev times : List ℕ
times = 0 ∷ 100 ∷ 200 ∷ []

abbrev hi : List ℕ
hi = 72 ∷ 105 ∷ []

visit_runs :
    (target_of (get "you" (run exact visit client).remote) ≡ some (pos 4000, pos 4000))
    × (target_of (get "me" (run exact visit client).remote) ≡ none)
    × ((send_chat 0 [] client).1 ≡ false)
    × (length (flush_all times client).sent ≡ 3)
unfolding running get
visit_runs = (refl, refl, refl, refl)
