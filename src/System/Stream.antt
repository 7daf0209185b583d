-- ===== src/System/Stream.antt =====
-- A client that keeps speaking and another one that listens over UDP: sending by client_essential/Worker.cpp,
-- the server of server/RawUdpServer.cpp, the receiver of client_essential/net_engine/RawUdpClient.cpp,
-- the handler of Worker.cpp and the downstream processor of the listener. What the network makes of
-- each datagram is an argument: it may lose, repeat, cut or delay it.
pub mod Carried
pub mod Spoken
pub mod Heard
use easy_voice_call.Base.{
  ℕ, ◌≡◌, Bool, true, false, List, [], ◌∷◌, ◌++◌, Option, none, some, take, if◌then◌else◌, map,
  bind,
}
use easy_voice_call.Base.Int.{ℤ}
use easy_voice_call.NetPacket.{NetPacket}
use easy_voice_call.Audio.{silence, block_size}
use easy_voice_call.Audio.Downstream.{
  Segment, Engines, DownstreamProcessor, append, fetch, samples_of,
}
use easy_voice_call.Audio.Downstream.Queue.{SpscQueue}
use easy_voice_call.Audio.Downstream.Playback.{buffered, all_samples}
use easy_voice_call.Worker.Voice.{
  Filters, VoiceState, Event, packet_sent, volume_reported, voice_reported, send_segment,
}
use easy_voice_call.Worker.Call.{Action, appends, on_data_received}
use easy_voice_call.Server.RawUdp.{Endpoint, RawUdpRoom, Sent, on_datagram}
use easy_voice_call.Server.RawUdp.Registered.{bytes_to}
use easy_voice_call.Client.RawUdpClient.{datagram, receive_loop}

-- The three programs' version strings, and the endpoints of the two clients.
pub record Ends : Type 0 where
  pub server_tag : List ℕ
  pub client_tag : List ℕ
  pub listener_tag : List ℕ
  pub talker_endpoint : Endpoint
  pub listener_endpoint : Endpoint

-- A segment that counts as speech, what the clocks of the three say and the server's allocator gives
-- while it is on its way, and what the network delivers then: to the server, where the talker has sent
-- a datagram, and to the listener, where the server has sent it some.
pub record Said : Type 0 where
  pub segment : List ℤ
  pub up_time : ℕ
  pub server_up : ℕ
  pub listener_up : ℕ
  pub new_address : ℕ
  pub to_server : List ℕ → List (List ℕ)
  pub to_listener : List (List ℕ) → List (List ℕ)

-- The one client speaks, or the sound card of the other fetches.
pub data Move : Type 0 where
  says : Said → Move
  plays : Move

pub record Line (F Q X : Type 0) : Type 0 where
  pub talker : VoiceState F
  pub room : RawUdpRoom
  pub listener : DownstreamProcessor Q X
  pub played : List (List ℤ)

module _ {F Q X : Type 0} (filters : Filters F) (queue : SpscQueue Segment Q) (engines : Engines X)
    (ends : Ends) where
  -- What the handler of received packets does with the downstream processor.
  take_actions : List Action → DownstreamProcessor Q X → Option (DownstreamProcessor Q X)
  take_actions [] d = some d
  take_actions (appends p ∷ actions) d = bind (take_actions actions) (append queue engines d p)
  take_actions (_ ∷ actions) d = take_actions actions d

  pub handle : ℕ → List NetPacket → DownstreamProcessor Q X → Option (DownstreamProcessor Q X)
  unfolding take_actions on_data_received
  handle up [] d = some d
  handle up (p ∷ ps) d =
      bind (handle up ps) (take_actions (on_data_received ends.listener_tag p true up).0 d)

  -- The server's loop over the datagrams that arrive.
  pub serve : Said → List (List ℕ) → RawUdpRoom → RawUdpRoom × List Sent
  serve said [] room = (room, [])
  serve said (bytes ∷ more) room =
      let (next, sent) = on_datagram ends.server_tag false room (record {
        failed = false;
        sender_endpoint = ends.talker_endpoint;
        datagram = bytes;
        new_address = said.new_address;
        up_time = said.server_up;
      }) in
      let (last, rest) = serve said more next in (last, sent ++ rest)

  -- A packet of the one client on its way to the other.
  pub carry : Said → NetPacket → Line F Q X → Option (Line F Q X)
  unfolding handle serve
  carry said p l =
      let (room, sent) = serve said (said.to_server p.whole_packet) l.room in
      let arrived = said.to_listener (bytes_to ends.listener_endpoint sent) in
      let packets = receive_loop ends.listener_tag said.listener_up (map datagram arrived) in
      bind (λ d. some (record l { room = room; listener = d }))
        (handle said.listener_up packets l.listener)

  carry_all : Said → List Event → Line F Q X → Option (Line F Q X)
  unfolding carry
  carry_all said [] l = some l
  carry_all said (packet_sent p ∷ events) l = bind (carry_all said events) (carry said p l)
  carry_all said (_ ∷ events) l = carry_all said events l

  pub say : Said → Line F Q X → Option (Line F Q X)
  unfolding carry_all
  say said l = elim (send_segment filters ends.client_tag l.talker said.segment said.up_time) [
    | none ↦ none
    | some (t, events) ↦ carry_all said events (record l { talker = t })
  ]

  pub play : Line F Q X → Line F Q X
  play l =
      let (out, d) = fetch queue engines l.listener in
      record l { listener = d; played = l.played ++ (out ∷ []) }

  pub run : List Move → Line F Q X → Option (Line F Q X)
  unfolding say play
  run [] l = some l
  run (says said ∷ moves) l = bind (run moves) (say said l)
  run (plays ∷ moves) l = run moves (play l)

  -- The encoder wired to the decoder: what the decoder makes of the bytes, and the state of decoder
  -- and echo canceller behind it.
  abbrev pub or_silence : Option (List ℤ) → List ℤ
  or_silence none = silence
  or_silence (some out) = out

  abbrev pub or_same : X → Option X → X
  or_same y none = y
  or_same y (some z) = z

  pub wired : Bool → X → List ℕ → List ℤ × X
  wired need_aec x bytes =
      let (decoded, y) = engines.opus_decode x bytes in
      let out = or_silence decoded in
      (out, if need_aec then or_same y (engines.buffer_farend y out) else y)

  -- The segments that come out of it.
  pub direct : Bool → F → X → List (List ℤ) → List (List ℤ)
  direct need_aec f x [] = []
  direct need_aec f x (segment ∷ segments) = elim (filters.encode f segment) [
    | none ↦ []
    | some (bytes, g) ↦
        let (out, z) = wired need_aec x bytes in take block_size out ∷ direct need_aec g z segments
  ]

  -- All that the listener has played, is to play next and has buffered.
  abbrev pub sound : Line F Q X → List (List ℤ)
  sound l =
      l.played
      ++ (samples_of l.listener.m1 ∷ all_samples queue engines (buffered queue engines l.listener))
