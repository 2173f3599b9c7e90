-- ===== src/Services/Cli.antt =====
-- src/app/cli/cli_app.cpp: what CliApp::run makes of its arguments, up to the text that goes to the
-- command actor. The printing of help, version and status is left out.
pub mod Delivery
mod Tests
use mathlib.Core.Option
use v2_engine.Common.{
  ℕ, suc, ◌+◌, Bool, true, false, not, ◌&&◌, ◌||◌, Option, none, some, List, [], ◌∷◌, ◌++◌, ◌==◌,
  if◌then◌else◌, take, drop,
}
use v2_engine.Services.Cmd.Tokens.{Text, space, find, same_text, codes}

-- What the program does: print, start the screen, send a command, or refuse an option.
pub data Action : Type 0 where
  help version status monitor nothing : Action
  help_on unknown_option send : Text → Action

pub is_empty : Text → Bool
is_empty [] = true
is_empty (c ∷ cs) = false

-- `s[0] == '-'`; the first byte of an empty text is its terminator.
pub is_dashed : Text → Bool
is_dashed [] = false
is_dashed (c ∷ cs) = c == 45

-- One argument of the command: `key=value` becomes `--key value`.
pub word : Text → Text
unfolding find
word a = elim (find 61 a) [
  | some eq ↦ codes " --" ++ take eq a ++ space ∷ drop (suc eq) a
  | none ↦ space ∷ a
]

pub command : Text → List Text → Text
unfolding word
command cmd [] = cmd
command cmd (a ∷ args) = command (cmd ++ word a) args

-- The arguments with a space between them.
join : List Text → Text
join [] = []
join (a ∷ []) = a
join (a ∷ b ∷ args) = a ++ space ∷ join (b ∷ args)

-- What comes after the loop over the arguments.
pub finish : Text → List Text → Bool → Action
unfolding is_empty same_text join command
finish sub args help_seen =
    if help_seen
    then (if is_empty sub then help else help_on sub)
    else if same_text sub (codes "version")
    then version
    else if same_text sub (codes "status")
    then status
    else if same_text sub (codes "monitor")
    then monitor
    else let cmd = if is_empty sub then join args else command sub args in
      if is_empty cmd then nothing else send cmd

-- The loop, with `sub`, `args` and `helpSeen`.
pub scan : List Text → Text → List Text → Bool → Action
unfolding is_empty is_dashed same_text finish
scan [] sub args help_seen = finish sub args help_seen
scan (s ∷ rest) sub args help_seen =
    let helped = scan rest sub args true in
    let named = scan rest s args help_seen in
    let added = scan rest sub (args ++ s ∷ []) help_seen in
    if same_text s (codes "-h") || same_text s (codes "--help")
    then helped
    else if same_text s (codes "-v") || same_text s (codes "--version")
    then version
    else if same_text s (codes "-s") || same_text s (codes "--status")
    then status
    else if same_text s (codes "-m") || same_text s (codes "--monitor")
    then monitor
    else if is_empty sub && not (is_dashed s)
    then named
    else if is_dashed s && is_empty sub
    then unknown_option s
    else added

-- `run` on the arguments behind the program's name.
pub run : List Text → Action
unfolding same_text scan
run [] = help
run (s ∷ rest) =
    let all = scan (s ∷ rest) [] [] false in
    if same_text s (codes "help") then elim rest [ [] ↦ help | t ∷ _ ↦ help_on t ] else all
