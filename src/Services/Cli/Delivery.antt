-- ===== src/Services/Cli/Delivery.antt =====
-- A command typed at the CLI reaches the command actor word for word.
use v2_engine.Common.{◌≡◌, ◌≢◌, false, ◌||◌, none, List, [], ◌∷◌, ◌++◌}
use v2_engine.Services.Cmd.Tokens.{Text, codes, space, find, same_text}
use v2_engine.Services.Cmd.Tokens.Words.{Spaceless}
use v2_engine.Services.Cli.{is_dashed}

-- A word that the shell passes on without a space or an equals sign in it.
abbrev pub Plain : Text → Type 0
Plain t = (t ≢ []) × Spaceless t × (find 61 t ≡ none)

-- The arguments, each behind a space.
abbrev tail : List Text → Text
tail [] = []
tail (a ∷ args) = space ∷ a ++ tail args

-- An argument that is none of the options of the loop.
abbrev pub Ordinary : Text → Type 0
Ordinary s =
    ((same_text s (codes "-h") || same_text s (codes "--help")) ≡ false)
    × ((same_text s (codes "-v") || same_text s (codes "--version")) ≡ false)
    × ((same_text s (codes "-s") || same_text s (codes "--status")) ≡ false)
    × ((same_text s (codes "-m") || same_text s (codes "--monitor")) ≡ false)

-- The first argument, if it is none of the words that the program answers itself.
abbrev pub Command : Text → Type 0
Command s =
    Ordinary s
    × (is_dashed s ≡ false)
    × (same_text s (codes "help") ≡ false)
    × (same_text s (codes "version") ≡ false)
    × (same_text s (codes "status") ≡ false)
    × (same_text s (codes "monitor") ≡ false)
