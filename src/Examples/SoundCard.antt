-- ===== src/Examples/SoundCard.antt =====
-- The sound card at concrete turns: a short write, an underrun, a suspend and a failure.
use easy_voice_call.Base.{◌≡◌, refl, List, [], ◌∷◌, some, arith, true}
use easy_voice_call.Base.Int.{ℤ, pos, negsuc}
use easy_voice_call.ReturnType.{of_int}
use easy_voice_call.Audio.Alsa.{Turn, write, read, react, resume, prepare, moved}
use easy_voice_call.Audio.Alsa.Transfer.{GoesOn, GivesUp, write-total}
use easy_voice_call.Audio.Alsa.Recording.{Delivers, read-arrived}

-- The numbers of EAGAIN, EPIPE and ESTRPIPE.
abbrev turn : ℤ → List ℤ → Turn
turn count samples = record {
  count = count;
  samples = samples;
  prepared = pos 0;
  resumes = negsuc 10 ∷ pos 0 ∷ [];
}

silent_turn : GoesOn 11 32 86 (turn (pos 2) [])
unfolding react
silent_turn = record { recovers = λ n. ground arith }

short_turn : GoesOn 11 32 86 (turn (pos 2) (pos 5 ∷ pos 6 ∷ []))
unfolding react
short_turn = record { recovers = λ n. ground arith }

suspended : GoesOn 11 32 86 (turn (negsuc 85) [])
unfolding react resume prepare
suspended = record { recovers = λ n. refl }

broken : GivesUp 11 32 86 (turn (negsuc 4) [])
unfolding react resume prepare
broken = record { fails = λ n. refl }

write-total_example :
    write 11 32 86 true
      (turn (pos 2) [] ∷ turn (negsuc 85) [] ∷ turn (negsuc 4) [] ∷ [])
      (pos 7 ∷ pos 8 ∷ pos 9 ∷ [])
    ≡ record { result = some (of_int (negsuc 0)); played = pos 7 ∷ pos 8 ∷ [] }
unfolding moved
write-total_example =
    write-total 11 32 86 (turn (pos 2) [] ∷ turn (negsuc 85) [] ∷ []) [] (turn (negsuc 4) [])
      (pos 7 ∷ pos 8 ∷ pos 9 ∷ []) (silent_turn, (suspended, tt)) broken

read-arrived_example :
    read 11 32 86
      (turn (pos 2) (pos 5 ∷ pos 6 ∷ [])
        ∷ turn (pos 2) (pos 5 ∷ pos 6 ∷ [])
        ∷ turn (negsuc 4) []
        ∷ [])
      (pos 0 ∷ pos 0 ∷ pos 0 ∷ [])
    ≡ record { result = some (of_int (pos 0)); buffer = pos 5 ∷ pos 6 ∷ pos 5 ∷ [] }
unfolding moved
read-arrived_example =
    let two : Delivers 11 32 86 (turn (pos 2) (pos 5 ∷ pos 6 ∷ [])) = record {
      recovered = short_turn;
      enough = omega arith;
    } in
    read-arrived 11 32 86
      (turn (pos 2) (pos 5 ∷ pos 6 ∷ []) ∷ turn (pos 2) (pos 5 ∷ pos 6 ∷ []) ∷ []) []
      (turn (negsuc 4) []) (pos 0 ∷ pos 0 ∷ pos 0 ∷ []) (two, (two, tt)) broken
