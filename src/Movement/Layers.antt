-- ===== src/Movement/Layers.antt =====
-- Which tiles of a map are solid: the collider layers, packages/runtime/src/movement.ts.
use Prim.Native.Char.{Char, code}
use Prim.Native.String.{String, [], ◌∷◌}
use agentic_rpgmaker.Base.{Bool, false, ◌&&◌, ◌||◌, ◌-◌, ℕ, nat_eq}

-- A letter in lower case, given by its code, or its capital.
abbrev letter : ℕ → Char → Bool
letter n c = nat_eq (code c) n || nat_eq (code c) (n - 32)

abbrev starts_collider : String → Bool
starts_collider (a ∷ b ∷ c ∷ d ∷ e ∷ f ∷ g ∷ h ∷ s) =
    letter 99 a
    && letter 111 b
    && letter 108 c
    && letter 108 d
    && letter 105 e
    && letter 100 f
    && letter 101 g
    && letter 114 h
starts_collider _ = false

-- `/collider/i.test(…)`
unfoldable pub matches_collider : String → Bool
matches_collider [] = false
matches_collider (c ∷ s) = starts_collider (c ∷ s) || matches_collider s
