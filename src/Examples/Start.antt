-- ===== src/Examples/Start.antt =====
-- Starting the server of server/Server.cpp at concrete inputs.
use Prim.Native.String.{String}
use easy_voice_call.Base.{ℕ, ◌≡◌, ◌⊎◌, refl, Bool, List, [], ◌∷◌, ◌==◌, not}
use easy_voice_call.Base.Int.{ℤ, pos, negsuc}
use easy_voice_call.Server.Main.{Serves, Refuses, narrow, main, main-started}

abbrev seventy_thousand : String → ℤ
seventy_thousand text = pos 70000

abbrev args : List String
args = "70000" ∷ "echo" ∷ []

-- All ports but the first one can be opened.
abbrev can_open : ℕ → Bool
can_open port = not (port == 0)

main-started_example :
    Serves seventy_thousand can_open args (main seventy_thousand can_open args)
    ⊎ Refuses seventy_thousand args (main seventy_thousand can_open args)
main-started_example = main-started seventy_thousand can_open args

-- The port that it is opened at.
narrowed : narrow (pos 70000) ≡ 4464
narrowed = refl

narrowed_negative : narrow (negsuc 0) ≡ 65535
narrowed_negative = refl
