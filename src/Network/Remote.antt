-- ===== src/Network/Remote.antt =====
-- Which remote players there are, and where they are bound.
use agentic_rpgmaker.Base.{
  ℕ, ◌≡◌, refl, Option, none, some, List, [], ◌∷◌, String, if◌then◌else◌, ◌==◌, ℤ, pos, or_else,
  arith, String_eq, eq_iff, inl, inr, Bool-cases, Option-cases, ap, ◌∙◌,
}
use agentic_rpgmaker.Base.Dict.{Dict, get, insert, delete, get-insert, get-delete}
use agentic_rpgmaker.Network.{
  PlayerState, RemotePlayer, Member, Envelope, welcome, player_state, chat, leave, error, ping,
  unknown, NetworkClient, Product, spawned, with_state, no_state, add_members, handle_envelope,
  interpolate, update_remote, update,
}

-- What changes the remote players: an envelope that arrives, or time that passes.
pub data NetworkEvent : Type 0 where
  receive : Envelope → NetworkEvent
  pass : (dt : ℕ) → NetworkEvent

-- The tile that each session is bound for, if there is a player of the session.
abbrev pub Targets : Type 0
Targets = String → Option (ℤ × ℤ)

abbrev pub member_target : Option PlayerState → ℤ × ℤ
member_target none = (pos 0, pos 0)
member_target (some state) = (state.x, state.y)

unfoldable pub welcomes : String → List Member → Targets → Targets
welcomes self [] f = f
welcomes self (p ∷ players) f = welcomes self players (λ s.
    if p.session_id == self
    then f s
    else if p.session_id == s
    then some (member_target p.state)
    else f s)

-- What an envelope promises.
abbrev pub promise : Envelope → Targets → Targets
promise (welcome self players) f = welcomes self players f
promise (player_state (some session_id) (some state)) f =
    λ s. if session_id == s then some (state.x, state.y) else f s
promise (leave (some session_id) reason) f = λ s. if session_id == s then none else f s
promise _ f = f

abbrev pub promises : List NetworkEvent → Targets → Targets
promises [] f = f
promises (receive envelope ∷ events) f = promises events (promise envelope f)
promises (pass dt ∷ events) f = promises events f

abbrev pub target_of : Option RemotePlayer → Option (ℤ × ℤ)
target_of none = none
target_of (some p) = some (p.target_x, p.target_y)

abbrev pub IsBound : Dict String RemotePlayer → Targets → Type 0
IsBound remote f = (s : String) → target_of (get s remote) ≡ f s

spawned_target :
    (id name : String) (o : Option PlayerState)
    → target_of (some (spawned id name (or_else o no_state))) ≡ some (member_target o)
spawned_target id name none = refl
spawned_target id name (some state) = refl

-- A player that enters the map is the one that is shown there.
inserted :
    (id : String) (p : RemotePlayer) (target : ℤ × ℤ) (remote : Dict String RemotePlayer)
    (f : Targets)
    → target_of (some p) ≡ some target
    → IsBound remote f
    → IsBound (insert id p remote) (λ s. if id == s then some target else f s)
inserted id p target remote f e w s = ap target_of (get-insert id s p remote) ∙ ground (arith, w s)

deleted :
    (id : String) (remote : Dict String RemotePlayer) (f : Targets)
    → IsBound remote f
    → IsBound (delete id remote) (λ s. if id == s then none else f s)
deleted id remote f w s = ap target_of (get-delete id s remote) ∙ ground (arith, w s)

add_members-IsBound :
    (self : String) (players : List Member) (remote : Dict String RemotePlayer) (f : Targets)
    → IsBound remote f
    → IsBound (add_members self players remote) (welcomes self players f)
unfolding add_members welcomes
add_members-IsBound self [] remote f w = w
add_members-IsBound self (p ∷ players) remote f w = elim (Bool-cases (p.session_id == self)) [
  | inl own ↦ rw own (add_members-IsBound self players remote f w)
  | inr other ↦ rw other (
      add_members-IsBound self players _ _ (
        inserted p.session_id (spawned p.session_id p.player_name (or_else p.state no_state))
          (member_target p.state) remote f (spawned_target p.session_id p.player_name p.state) w))
]

with_state_target :
    (id : String) (state : PlayerState) (o : Option RemotePlayer)
    → target_of (some (with_state id state o)) ≡ some (state.x, state.y)
with_state_target id state none = refl
with_state_target id state (some p) = refl

promise-IsBound :
    (envelope : Envelope) (c : NetworkClient) (f : Targets)
    → IsBound c.remote f
    → IsBound (handle_envelope envelope c).remote (promise envelope f)
unfolding handle_envelope
promise-IsBound (welcome self players) c f w = add_members-IsBound self players c.remote f w
promise-IsBound (player_state none state) c f w = w
promise-IsBound (player_state (some id) none) c f w = w
promise-IsBound (player_state (some id) (some state)) c f w =
    inserted id (with_state id state (get id c.remote)) (state.x, state.y) c.remote f
      (with_state_target id state (get id c.remote)) w
promise-IsBound (chat text id name) c f w = w
promise-IsBound (leave none reason) c f w = w
promise-IsBound (leave (some id) reason) c f w = elim (Option-cases (get id c.remote)) [
  | inl absent ↦ rw (absent, handle_envelope) (λ s. ground (arith, w s, w id, eq_iff id s))
  | inr (p, found) ↦ rw (found, handle_envelope) (deleted id c.remote f w)
]
promise-IsBound error c f w = w
promise-IsBound (ping payload) c f w = w
promise-IsBound (unknown type) c f w = w

module _ (fractions : Product) where
  unfoldable pub run : List NetworkEvent → NetworkClient → NetworkClient
  unfolding handle_envelope update
  run [] c = c
  run (receive envelope ∷ events) c = run events (handle_envelope envelope c)
  run (pass dt ∷ events) c = run events (update fractions dt c)

  interpolate_target :
      (dt : ℕ) (p : RemotePlayer)
      → target_of (some (interpolate fractions dt p)) ≡ target_of (some p)
  unfolding interpolate
  interpolate_target dt p = ground arith

  update-IsBound :
      (dt : ℕ) (remote : Dict String RemotePlayer) (s : String)
      → target_of (get s (update_remote fractions dt remote)) ≡ target_of (get s remote)
  unfolding update_remote get
  update-IsBound dt [] s = refl
  update-IsBound dt ((id, p) ∷ remote) s = elim (Bool-cases (id == s)) [
    | inl same ↦ rw same (interpolate_target dt p)
    | inr other ↦ rw other (update-IsBound dt remote s)
  ]

  -- Whatever envelopes arrive and whatever time passes in between, the client has a player for each
  -- session that the envelopes promise and for no other, bound for the tile of the last state of
  -- the session: a `welcome` adds its members but the client itself, a state moves or adds, a leave
  -- removes, and states or leaves without a session, malformed states and unknown types do nothing.
  pub run-IsBound :
      (events : List NetworkEvent) (c : NetworkClient) (f : Targets)
      → IsBound c.remote f
      → IsBound (run events c).remote (promises events f)
  unfolding run update
  run-IsBound [] c f w = w
  run-IsBound (receive envelope ∷ events) c f w =
      run-IsBound events (handle_envelope envelope c) (promise envelope f)
        (promise-IsBound envelope c f w)
  run-IsBound (pass dt ∷ events) c f w =
      run-IsBound events (update fractions dt c) f (λ s. update-IsBound dt c.remote s ∙ w s)
