-- ===== src/Examples/Android.antt =====
-- The Java side of the Android client at concrete inputs.
use easy_voice_call.Base.{ℕ, ◌≡◌, List, [], ◌∷◌, some, none, arith}
use easy_voice_call.Audio.VolumeMeter.{input}
use easy_voice_call.Android.{
  create_net_packet, create_net_packet_with_sn, create_net_packet_with_payload, calc_volume,
}
use easy_voice_call.Android.Packets.{Reads, create-Reads}
use easy_voice_call.Android.Volume.{calc_volume-level_in}

abbrev version : List ℕ
version = 0x76 ∷ 0x31 ∷ 0x2e ∷ 0x30 ∷ []

create-Reads_example :
    Reads 7 [] [] 9 (create_net_packet version 5 7)
    × Reads 7 [] [] 9 (create_net_packet_with_sn version 5 7 20)
    × ((raw : List ℕ) × (create_net_packet_with_payload version 5 7 20 (1 ∷ 2 ∷ 3 ∷ []) ≡ some raw)
        × Reads 7 (1 ∷ 2 ∷ 3 ∷ []) [] 9 raw)
create-Reads_example =
    create-Reads version [] 5 9 7 20 (1 ∷ 2 ∷ 3 ∷ []) (omega arith) (omega arith) (omega arith)
      (omega arith)

calc_volume-level_in_example : calc_volume (1 ∷ 2 ∷ 3 ∷ []) input 5 6 7 8 ≡ none
calc_volume-level_in_example = calc_volume-level_in (1 ∷ 2 ∷ 3 ∷ []) input 5 6 7 8 (omega arith)
