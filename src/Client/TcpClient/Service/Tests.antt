-- ===== src/Client/TcpClient/Service/Tests.antt =====
-- The handlers of client_essential/TcpClient.hpp at a concrete run.
use easy_voice_call.Base.{ℕ, ◌≡◌, refl, true, false, List, [], ◌∷◌, some, arith}
use easy_voice_call.NetPacket.{NetPacket, check_header, payload_length}
use easy_voice_call.Server.TcpSession.{fresh}
use easy_voice_call.Server.TcpSession.Framing.{frames}
use easy_voice_call.Client.TcpClient.{on_connect}
use easy_voice_call.Client.TcpClient.Service.{
  BoostAsioTcpClient, reads_header, Turn, completes_connect, completes_read, step, on_connecting,
  connected, on_read, can_read, header_read, payload_read, create,
}
use easy_voice_call.Client.TcpClient.Service.Receiving.{run, input, received-frames}

abbrev header : List ℕ
header =
    0x65 ∷ 0x76 ∷ 0x63 ∷ 0x20 ∷ 0x76 ∷ 0x31 ∷ 0x2e ∷ 0x30 ∷ 1 ∷ 0 ∷ 0 ∷ 0 ∷ 7 ∷ 0 ∷ 1 ∷ 0 ∷ 0 ∷ 0
    ∷ 2 ∷ 0 ∷ []

abbrev before : NetPacket
before = record { whole_packet = header }

-- Two payload bytes follow the header that the client reads once it is connected.
abbrev turns : List Turn
turns =
    completes_connect false ∷ completes_read (some header) ∷ completes_read (some (5 ∷ 6 ∷ [])) ∷ []

abbrev after : BoostAsioTcpClient
after = record {
  client = record { is_connected = true; writer = fresh };
  socket_open = true;
  read_msg = record {
    whole_packet =
        0x65 ∷ 0x76 ∷ 0x63 ∷ 0x20 ∷ 0x76 ∷ 0x31 ∷ 0x2e ∷ 0x30 ∷ 1 ∷ 0 ∷ 0 ∷ 0 ∷ 7 ∷ 0 ∷ 1 ∷ 0 ∷ 0
        ∷ 0 ∷ 2 ∷ 0 ∷ 5 ∷ 6 ∷ [];
  };
  reading = reads_header true;
  write_began_open = false;
  posted = [];
  received =
      record {
        whole_packet =
            0x65 ∷ 0x76 ∷ 0x63 ∷ 0x20 ∷ 0x76 ∷ 0x31 ∷ 0x2e ∷ 0x30 ∷ 1 ∷ 0 ∷ 0 ∷ 0 ∷ 7 ∷ 0 ∷ 1 ∷ 0
            ∷ 0 ∷ 0 ∷ 2 ∷ 0 ∷ 5 ∷ 6 ∷ [];
      }
      ∷ [];
}

ends-after : run turns (create before) ≡ some after
unfolding run step on_connecting connected on_connect on_read can_read header_read payload_read
    create fresh check_header payload_length
ends-after = refl

received-frames_example : frames 4 (input turns) ≡ some after.received
received-frames_example = received-frames turns before after true (omega arith) ends-after refl
