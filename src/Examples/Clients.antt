-- ===== src/Examples/Clients.antt =====
-- The clients of client_essential/ at concrete inputs.
use easy_voice_call.Base.{◌≡◌, refl, true, false, List, [], ◌∷◌, some}
use easy_voice_call.NetPacket.{NetPacket}
use easy_voice_call.NetPacket.Parse.{parse}
use easy_voice_call.Server.TcpSession.{fresh}
use easy_voice_call.Server.TcpSession.WriteQueue.{InOrder}
use easy_voice_call.Client.RawUdpClient.{receive_loop, Received, datagram, raises}
use easy_voice_call.Client.RawUdpClient.Datagrams.{packets_in, receive_loop-packets_in}
use easy_voice_call.Client.TcpClient.Queue.{
  WriteEvent, posted, completed, broke, messages, run, run-InOrder,
}
use easy_voice_call.Client.TcpClient.Service.{
  BoostAsioTcpClient, writes, closes, step, runs_task, reads_header,
}
use easy_voice_call.Client.TcpClient.Service.Ending.{Returns, closed-Returns}

abbrev spoken : NetPacket
spoken = record {
  whole_packet =
      0x65 ∷ 0x76 ∷ 0x63 ∷ 0x20 ∷ 0x76 ∷ 0x31 ∷ 0x2e ∷ 0x30 ∷ 1 ∷ 0 ∷ 0 ∷ 0 ∷ 7 ∷ 0 ∷ 1 ∷ 0 ∷ 0 ∷ 0
      ∷ 2 ∷ 0 ∷ 5 ∷ 6 ∷ [];
}

abbrev received : List Received
received = datagram spoken.whole_packet ∷ datagram (1 ∷ []) ∷ raises ∷ datagram [] ∷ []

receive_loop-packets_in_example : receive_loop [] 4 received ≡ packets_in received
receive_loop-packets_in_example = receive_loop-packets_in [] 4 received

received_packets : packets_in received ≡ spoken ∷ []
unfolding parse
received_packets = refl

abbrev events : List WriteEvent
events = posted spoken ∷ posted spoken ∷ completed ∷ broke 5 ∷ posted spoken ∷ []

run-InOrder_example : InOrder (messages events) (run fresh events)
run-InOrder_example = run-InOrder events

-- A client that reads a header, whose destructor's task stands before a message.
abbrev leaving : BoostAsioTcpClient
leaving = record {
  client = record { is_connected = true; writer = fresh };
  socket_open = true;
  read_msg = spoken;
  reading = reads_header true;
  write_began_open = false;
  posted = closes ∷ writes spoken ∷ [];
  received = [];
}

closed-Returns_example : (t : BoostAsioTcpClient) × (step leaving runs_task ≡ some t) × Returns t
closed-Returns_example = closed-Returns leaving (writes spoken ∷ []) refl
