-- ===== src/Services/Cmd/Tokens.antt =====
-- How CmdActor::dispatch takes a command apart. A text is the list of its bytes.
pub mod Words
use mathlib.Core.Option
use Prim.Native.Char.{code}
use Prim.Native.String.{String}
use v2_engine.Actors.Supervision.{ActorState, opened, inherited}
use v2_engine.Common.{
  ℕ, zero, suc, ◌&&◌, Bool, true, false, Option, none, some, List, [], ◌∷◌, ◌==◌, if◌then◌else◌,
  take, drop,
}

abbrev pub Text : Type 0
Text = List ℕ

-- The bytes of a literal.
abbrev pub codes : String → Text
codes String.[] = []
codes (String.◌∷◌ c s) = code c ∷ codes s

abbrev pub space : ℕ
space = 32

-- `find` and `find_first_not_of`.
unfoldable pub find : ℕ → Text → Option ℕ
find c [] = none
find c (x ∷ xs) = let rest = Option.map suc (find c xs) in if x == c then some 0 else rest

unfoldable pub find_first_not_of : ℕ → Text → Option ℕ
find_first_not_of c [] = none
find_first_not_of c (x ∷ xs) =
    let rest = Option.map suc (find_first_not_of c xs) in if x == c then rest else some 0

-- The loop over `rest`, with fuel; `none` is a loop that has not ended.
unfoldable pub args_loop : ℕ → Text → Option (List Text)
unfolding find find_first_not_of
args_loop zero rest = none
args_loop (suc fuel) [] = some []
args_loop (suc fuel) (c ∷ cs) = elim (find_first_not_of space (c ∷ cs)) [
  | none ↦ some []
  | some start ↦
      let rest = drop start (c ∷ cs) in
      elim (find space rest) [
        | none ↦ some (rest ∷ [])
        | some end ↦
            Option.map (λ args. take end rest ∷ args) (args_loop fuel (drop (suc end) rest))
      ]
]

-- The name of the command and its arguments.
unfoldable pub parse : ℕ → Text → Option (Text × List Text)
unfolding find args_loop
parse fuel cmd = elim (find space cmd) [
  | none ↦ some (cmd, [])
  | some at ↦ Option.map (λ args. (take at cmd, args)) (args_loop fuel (drop (suc at) cmd))
]

unfoldable pub same_text : Text → Text → Bool
same_text [] [] = true
same_text (c ∷ cs) (d ∷ ds) = c == d && same_text cs ds
same_text _ _ = false

-- `state_ >= Opened`.
unfoldable pub is_opened : ActorState → Bool
is_opened opened = true
is_opened inherited = true
is_opened _ = false
