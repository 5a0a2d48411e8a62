-- ===== src/Network/Display.antt =====
-- How a remote player comes to its target.
use agentic_rpgmaker.Base.{
  ℕ, ◌+◌, ◌≡◌, refl, ap, ◌∙◌, ◌≤◌, ◌<◌, Bool, true, false, Option, some, List, [], ◌∷◌, String,
  if◌then◌else◌, ◌==◌, leb, arith, inl, inr, Bool-cases, ℤ, ◌+ℤ◌, ◌-ℤ◌, int_laws, String_eq,
}
use agentic_rpgmaker.Base.Dict.{Dict, get, get-insert, beq_refl}
use agentic_rpgmaker.Network.{
  PlayerState, RemotePlayer, NetworkClient, Product, interpolate, interpolation_window_ms,
  update_remote, update, with_state, handle_remote_state,
}

abbrev pub sum : List ℕ → ℕ
sum [] = 0
sum (n ∷ ns) = n + sum ns

add_sub : (a b : ℤ) → a +ℤ (b -ℤ a) ≡ b
add_sub a b = omega int_laws

found_here :
    (a b : RemotePlayer) (rest : Option RemotePlayer) (here : Bool)
    → here ≡ true
    → (if here then some a else rest) ≡ some b
    → a ≡ b
found_here a b rest true same e = cc
found_here a b rest false same e = cc

found_later :
    (a b : RemotePlayer) (rest : Option RemotePlayer) (here : Bool)
    → here ≡ false
    → (if here then some a else rest) ≡ some b
    → rest ≡ some b
found_later a b rest true other e = cc
found_later a b rest false other e = e

module _ (fractions : Product) where
  open fractions use {times, times_1}

  -- `update` for each of the times: one player, and the client.
  unfoldable pub pass_all : List ℕ → RemotePlayer → RemotePlayer
  unfolding interpolate
  pass_all [] p = p
  pass_all (dt ∷ dts) p = pass_all dts (interpolate fractions dt p)

  unfoldable pub update_all : List ℕ → NetworkClient → NetworkClient
  unfolding update
  update_all [] c = c
  update_all (dt ∷ dts) c = update_all dts (update fractions dt c)

  -- Where a player is shown so many milliseconds after it set out.
  abbrev pub shown_after : (from to : ℤ) → ℕ → ℤ
  shown_after from to ms =
      if leb interpolation_window_ms ms then to else from +ℤ times (to -ℤ from) ms

  arrived : (from to : ℤ) → from +ℤ times (to -ℤ from) interpolation_window_ms ≡ to
  arrived from to = ap (λ (d : ℤ). from +ℤ d) (times_1 (to -ℤ from)) ∙ add_sub from to

  -- The player is shown at its target, and the window is over.
  abbrev HasArrived : (x y : ℤ) → RemotePlayer → Type 0
  HasArrived x y p =
      (p.x ≡ x)
      × (p.y ≡ y)
      × (p.target_x ≡ x)
      × (p.target_y ≡ y)
      × (interpolation_window_ms ≤ p.interp_ms)

  stays :
      (x y : ℤ) (dt : ℕ) (p : RemotePlayer)
      → HasArrived x y p
      → HasArrived x y (interpolate fractions dt p)
  unfolding interpolate
  stays x y dt p (at_x, at_y, to_x, to_y, over) =
      let done : leb 120 p.interp_ms ≡ true = ground arith in rw done (to_x, to_y, to_x, to_y, over)

  stays_all :
      (x y : ℤ) (dts : List ℕ) (p : RemotePlayer)
      → HasArrived x y p
      → HasArrived x y (pass_all dts p)
  unfolding pass_all
  stays_all x y [] p w = w
  stays_all x y (dt ∷ dts) p w = stays_all x y dts (interpolate fractions dt p) (stays x y dt p w)

  -- A player on the way.
  abbrev IsShown : (dts : List ℕ) → RemotePlayer → RemotePlayer → Type 0
  IsShown dts p q =
      (q.x ≡ shown_after p.prev_x p.target_x (p.interp_ms + sum dts))
      × (q.y ≡ shown_after p.prev_y p.target_y (p.interp_ms + sum dts))

  finishes :
      (dt : ℕ) (dts : List ℕ) (p : RemotePlayer)
      → p.interp_ms < interpolation_window_ms
      → interpolation_window_ms ≤ p.interp_ms + dt
      → IsShown (dt ∷ dts) p (pass_all (dt ∷ dts) p)
  unfolding pass_all interpolate
  finishes dt dts p running over =
      let not_done : leb 120 p.interp_ms ≡ false = ground arith in
      let full : leb 120 (p.interp_ms + dt) ≡ true = ground arith in
      let late : leb 120 (p.interp_ms + (dt + sum dts)) ≡ true = ground arith in
      let q = interpolate fractions dt p in
      let there : HasArrived p.target_x p.target_y q =
        rw (not_done, full)
          (arrived p.prev_x p.target_x, arrived p.prev_y p.target_y, refl, refl, omega arith) in
      let (x, y, to_x, to_y, after) = stays_all p.target_x p.target_y dts q there in rw late (x, y)

  goes_on :
      (dt : ℕ) (p : RemotePlayer)
      → p.interp_ms + dt < interpolation_window_ms
      → interpolate fractions dt p ≡ record p {
        interp_ms = p.interp_ms + dt;
        x = p.prev_x +ℤ times (p.target_x -ℤ p.prev_x) (p.interp_ms + dt);
        y = p.prev_y +ℤ times (p.target_y -ℤ p.prev_y) (p.interp_ms + dt);
      }
  unfolding interpolate
  goes_on dt p short =
      let not_done : leb 120 p.interp_ms ≡ false = ground arith in
      let not_full : leb 120 (p.interp_ms + dt) ≡ false = ground arith in
      rw (not_done, not_full) refl

  pass_one-IsShown :
      (dt : ℕ) (p : RemotePlayer)
      → p.interp_ms + dt < interpolation_window_ms
      → IsShown (dt ∷ []) p (interpolate fractions dt p)
  pass_one-IsShown dt p short =
      let same : dt + 0 ≡ dt = omega arith in
      let not_full : leb 120 (p.interp_ms + dt) ≡ false = ground arith in
      rw (goes_on dt p short, same, not_full) (refl, refl)

  later :
      (dt next : ℕ) (dts : List ℕ) (p : RemotePlayer)
      → p.interp_ms + dt < interpolation_window_ms
      → IsShown
          (next ∷ dts)
          (interpolate fractions dt p)
          (pass_all (next ∷ dts) (interpolate fractions dt p))
      → IsShown (dt ∷ next ∷ dts) p (pass_all (next ∷ dts) (interpolate fractions dt p))
  later dt next dts p short (x, y) =
      let q = interpolate fractions dt p in
      let e = goes_on dt p short in
      let total : q.interp_ms + (next + sum dts) ≡ p.interp_ms + (dt + (next + sum dts)) =
        rw e (omega arith) in
      (
        x ∙ (λ k. shown_after (e k).prev_x (e k).target_x (total k)),
        y ∙ (λ k. shown_after (e k).prev_y (e k).target_y (total k)),
      )

  pass_all-IsShown :
      (dt : ℕ) (dts : List ℕ) (p : RemotePlayer)
      → p.interp_ms < interpolation_window_ms
      → IsShown (dt ∷ dts) p (pass_all (dt ∷ dts) p)
  unfolding pass_all
  pass_all-IsShown dt [] p running = elim (Bool-cases (leb 120 (p.interp_ms + dt))) [
    | inl over ↦ finishes dt [] p running (ground arith)
    | inr short ↦ pass_one-IsShown dt p (ground arith)
  ]
  pass_all-IsShown dt (next ∷ dts) p running =
      let ih = pass_all-IsShown next dts (interpolate fractions dt p) in
      elim (Bool-cases (leb 120 (p.interp_ms + dt))) [
        | inl over ↦ finishes dt (next ∷ dts) p running (ground arith)
        | inr short ↦
            let lt : p.interp_ms + dt < interpolation_window_ms = ground arith in
            later dt next dts p lt (ih (rw (goes_on dt p lt) lt))
      ]

  -- One player of the client.
  player_passes :
      (dt : ℕ) (id : String) (p : RemotePlayer) (remote : Dict String RemotePlayer)
      → get id remote ≡ some p
      → get id (update_remote fractions dt remote) ≡ some (interpolate fractions dt p)
  unfolding get update_remote
  player_passes dt id p [] found = cc
  player_passes dt id p ((j, q) ∷ remote) found = elim (Bool-cases (j == id)) [
    | inl same ↦
        let here : q ≡ p = found_here q p (get id remote) (j == id) same found in
        rw (same, here) refl
    | inr other ↦
        rw other
          (player_passes dt id p remote (found_later q p (get id remote) (j == id) other found))
  ]

  players_pass :
      (dts : List ℕ) (id : String) (p : RemotePlayer) (c : NetworkClient)
      → get id c.remote ≡ some p
      → get id (update_all dts c).remote ≡ some (pass_all dts p)
  unfolding update_all update pass_all
  players_pass [] id p c found = found
  players_pass (dt ∷ dts) id p c found =
      players_pass dts id (interpolate fractions dt p) (update fractions dt c)
        (player_passes dt id p c.remote found)

  -- A state arrives for a player that the client has. After any updates from then on, one at least,
  -- the player is shown on the way from where it was shown to the place of the state, in the share of
  -- 120 ms that has passed since the state, and exactly at that place once the 120 ms are over.
  pub update_all-state :
      (id : String) (state : PlayerState) (p : RemotePlayer) (c : NetworkClient) (dt : ℕ)
      (dts : List ℕ)
      → get id c.remote ≡ some p
      → (q : RemotePlayer) × (get id
            (update_all (dt ∷ dts) (handle_remote_state (some id) (some state) c)).remote
          ≡ some q)
        × (q.x ≡ shown_after p.x state.x (sum (dt ∷ dts)))
        × (q.y ≡ shown_after p.y state.y (sum (dt ∷ dts)))
  unfolding handle_remote_state
  update_all-state id state p c dt dts found =
      let q = with_state id state (some p) in
      let arrived_now : get id (handle_remote_state (some id) (some state) c).remote ≡ some q =
        rw found (get-insert id id q c.remote ∙ (rw (beq_refl id) refl)) in
      let (x, y) = pass_all-IsShown dt dts q (omega arith) in
      let from_0 : 0 + sum (dt ∷ dts) ≡ sum (dt ∷ dts) = omega arith in
      (
        pass_all (dt ∷ dts) q,
        players_pass (dt ∷ dts) id q (handle_remote_state (some id) (some state) c) arrived_now,
        x ∙ ap (λ (n : ℕ). shown_after p.x state.x n) from_0,
        y ∙ ap (λ (n : ℕ). shown_after p.y state.y n) from_0,
      )
