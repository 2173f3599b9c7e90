-- ===== src/Services/Cli/Tests.antt =====
-- `v2 wifi connect home secret`, and what becomes of an equals sign.
use v2_engine.Common.{◌≡◌, [], ◌∷◌, refl}
use v2_engine.Services.Cmd.Tokens.{Text, codes, find, same_text}
use v2_engine.Services.Cli.{command, run, send, scan}

abbrev wifi : Text
wifi = codes "wifi"

abbrev connect : Text
connect = codes "connect"

abbrev home : Text
home = codes "home"

-- A password with an equals sign reaches the command actor as two other words.
equals_splits :
    run (wifi ∷ connect ∷ home ∷ codes "pa=ss" ∷ []) ≡ send (codes "wifi connect home --pa ss")
unfolding run scan find same_text command
equals_splits = refl
