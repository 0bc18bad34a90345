-- ===== src/Presets/Commands.antt =====
-- The search command of a valid preset (internal/chess/limits.go), read back.
use Prim.Native.Char.{Char}
use cheese_kakao_talk_bot.Prelude.{
  ℕ, ◌+◌, String, ◌==◌, Bool, true, false, ◌||◌, ◌≡◌, refl, List, [], ◌∷◌, ◌++◌, if◌then◌else◌,
  none, Option, some, length,
}
use cheese_kakao_talk_bot.Presets.Types.{ℤ, pos, less, Floats, DifficultyPreset, no_limits}
use cheese_kakao_talk_bot.Presets.Validate.{validate_preset}
use cheese_kakao_talk_bot.Presets.Go.{
  GoCommand, refused, command, need_limits, limits, build_go_command,
}

-- What an engine reads for a word in the arguments of go, which are words and values in turn.
abbrev pub argument : String → List String → Option String
argument word [] = none
argument word (w ∷ []) = none
argument word (w ∷ v ∷ rest) = if w == word then some v else argument word rest

abbrev pub one_if : Bool → ℕ
one_if true = 1
one_if false = 0

abbrev pub when : Bool → String → Option String
when true v = some v
when false v = none

-- The arguments give these three limits, each if it is there, and nothing else.
pub record Gives (x y z : Bool) (depth movetime nodes : String) (words : List String) : Type 0 where
  pub at_depth : argument "depth" words ≡ when x depth
  pub at_movetime : argument "movetime" words ≡ when y movetime
  pub at_nodes : argument "nodes" words ≡ when z nodes
  pub nothing_else :
      length words ≡ one_if x + one_if x + (one_if y + one_if y) + (one_if z + one_if z)

-- What is to be made of the limits: a command if there is one, and else the error of none.
abbrev pub Says : Bool → Bool → Bool → String → String → String → String → GoCommand → Type 0
Says x y z name d m n (refused e) = ((x || y || z) ≡ false) × (e ≡ no_limits name)
Says x y z name d m n (command []) = ⊥
Says x y z name d m n (command (go ∷ words)) =
    ((x || y || z) ≡ true) × (go ≡ "go") × Gives x y z d m n words

need_limits-Says :
    (name d m n : String) (x y z : Bool)
    → Says x y z name d m n (
        need_limits name (
          (if x then "depth" ∷ d ∷ [] else [])
          ++ (if y then "movetime" ∷ m ∷ [] else [])
          ++ (if z then "nodes" ∷ n ∷ [] else [])))
need_limits-Says name d m n true true true = (
  refl,
  refl,
  record { at_depth = refl; at_movetime = refl; at_nodes = refl; nothing_else = refl },
)
need_limits-Says name d m n true true false = (
  refl,
  refl,
  record { at_depth = refl; at_movetime = refl; at_nodes = refl; nothing_else = refl },
)
need_limits-Says name d m n true false true = (
  refl,
  refl,
  record { at_depth = refl; at_movetime = refl; at_nodes = refl; nothing_else = refl },
)
need_limits-Says name d m n true false false = (
  refl,
  refl,
  record { at_depth = refl; at_movetime = refl; at_nodes = refl; nothing_else = refl },
)
need_limits-Says name d m n false true true = (
  refl,
  refl,
  record { at_depth = refl; at_movetime = refl; at_nodes = refl; nothing_else = refl },
)
need_limits-Says name d m n false true false = (
  refl,
  refl,
  record { at_depth = refl; at_movetime = refl; at_nodes = refl; nothing_else = refl },
)
need_limits-Says name d m n false false true = (
  refl,
  refl,
  record { at_depth = refl; at_movetime = refl; at_nodes = refl; nothing_else = refl },
)
need_limits-Says name d m n false false false = (refl, refl)

module _ (beyond : Char → Char) (itoa : ℤ → String) (X : Floats) where
  -- What a command says of the limits of a preset that are above zero.
  abbrev pub SaysLimits : DifficultyPreset X → GoCommand → Type 0
  SaysLimits p c =
      Says (less (pos 0) p.depth_cap) (less (pos 0) p.move_time_millis) (less (pos 0) p.node_cap)
        p.name (itoa p.depth_cap) (itoa p.move_time_millis) (itoa p.node_cap) c

  -- Of a valid preset with a limit above zero, an engine reads from the command that BuildGoCommand
  -- gives, which begins with the word go, the texts of exactly those of the depth, the time of a
  -- move and the nodes that are above zero, and it has no other words; of a valid preset without
  -- one, BuildGoCommand gives the error of missing limits.
  pub build_go_command-limits :
      (p : DifficultyPreset X)
      → validate_preset beyond X p ≡ none
      → SaysLimits p (build_go_command beyond itoa X p)
  unfolding build_go_command limits
  build_go_command-limits p v = rw v (
      need_limits-Says p.name (itoa p.depth_cap) (itoa p.move_time_millis) (itoa p.node_cap)
        (less (pos 0) p.depth_cap) (less (pos 0) p.move_time_millis) (less (pos 0) p.node_cap))
