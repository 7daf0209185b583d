-- ===== src/System/Stream/Carried.antt =====
-- One segment of speech on its way from the talker to the listener.
use easy_voice_call.Base.{
  ℕ, ◌+◌, ◌%◌, ◌^◌, ◌≤◌, ◌≡◌, refl, ap, ◌∙◌, sym, subst, Bool, true, false, List, [], ◌∷◌, some,
  length, take, arith, append-nil, take_all,
}
use easy_voice_call.Base.Int.{ℤ}
use easy_voice_call.NetPacket.{NetPacket, audio_message, is_media, payload_type, payload}
use easy_voice_call.NetPacket.Fields.{Carries, Carries-length}
use easy_voice_call.NetPacket.Parse.{parse, parse-IsWellFormed}
use easy_voice_call.Audio.Downstream.{Segment, Engines, DownstreamProcessor, append}
use easy_voice_call.Audio.Downstream.Queue.{SpscQueue}
use easy_voice_call.Audio.Downstream.Playback.{buffered}
use easy_voice_call.Audio.Downstream.Hearing.{Takes, heard, append-heard}
use easy_voice_call.Worker.Voice.{Filters}
use easy_voice_call.Worker.Call.{on_data_received, on_payload_type}
use easy_voice_call.Server.RawUdp.{
  RawUdpRoom, RawUdpConnection, Arrival, find_peer, same, max_length, on_datagram, broadcast,
}
use easy_voice_call.Server.RawUdp.Peers.{Distinct, is_registered}
use easy_voice_call.Server.RawUdp.Registered.{bytes_to, media_registered, broadcast_to}
use easy_voice_call.Client.RawUdpClient.{datagram, receive_loop}
use easy_voice_call.Client.RawUdpClient.Datagrams.{receive_one}
use easy_voice_call.System.Stream.{Ends, Said, Line, handle, take_actions, serve, carry}

-- The network delivers each datagram once, whole, in its order, and before the next segment.
pub record Delivers (said : Said) : Type 0 where
  pub server_gets : (bytes : List ℕ) → said.to_server bytes ≡ bytes ∷ []
  pub listener_gets : (datagrams : List (List ℕ)) → said.to_listener datagrams ≡ datagrams

module _ {F Q X : Type 0} (filters : Filters F) (queue : SpscQueue Segment Q) (engines : Engines X)
    (ends : Ends) where
  -- The talker may speak, both clients are registered, the peers are pairwise apart, and the listener
  -- has `n` segments in a jitter buffer of 100, and the echo canceller on or off.
  pub record Open (need_aec : Bool) (n : ℕ) (l : Line F Q X) : Type 0 where
    pub aec : l.listener.need_aec ≡ need_aec
    pub speaks : l.talker.send_opus ≡ true
    pub connection : RawUdpConnection
    pub found : find_peer ends.talker_endpoint l.room.peers ≡ some connection
    pub registered : is_registered ends.listener_endpoint l.room.peers ≡ true
    pub distinct : Distinct l.room.peers
    pub held : length (buffered queue engines l.listener) ≡ n
    pub room_for : queue.capacity l.listener.decoded_buffer ≡ 100

  handle_audio :
      (up : ℕ) (p : NetPacket) (d t : DownstreamProcessor Q X)
      → payload_type p ≡ audio_message
      → append queue engines d p ≡ some t
      → handle filters queue engines ends up (p ∷ []) d ≡ some t
  unfolding handle take_actions on_data_received on_payload_type
  handle_audio up p d t kind e = rw (kind, e) refl

  carry-listener :
      (said : Said) (p : NetPacket) (l : Line F Q X) (room : RawUdpRoom) (c : RawUdpConnection)
      (t : DownstreamProcessor Q X)
      → Delivers said
      → on_datagram ends.server_tag false l.room (record {
        failed = false;
        sender_endpoint = ends.talker_endpoint;
        datagram = p.whole_packet;
        new_address = said.new_address;
        up_time = said.server_up;
      })
        ≡ (room, broadcast l.room.peers c p)
      → bytes_to ends.listener_endpoint (broadcast l.room.peers c p) ≡ p.whole_packet ∷ []
      → receive_loop ends.listener_tag said.listener_up (datagram p.whole_packet ∷ []) ≡ p ∷ []
      → handle filters queue engines ends said.listener_up (p ∷ []) l.listener ≡ some t
      → carry filters queue engines ends said p l ≡ some (record l { room = room; listener = t })
  unfolding carry serve
  carry-listener said p l room c t network served one received handled =
      rw
        (
          network.server_gets p.whole_packet,
          served,
          append-nil (broadcast l.room.peers c p),
          network.listener_gets (bytes_to ends.listener_endpoint (broadcast l.room.peers c p)),
          one,
          received,
          handled,
        )
        refl

  module _ (tagged : 4 ≤ length ends.client_tag)
      (apart : same ends.talker_endpoint ends.listener_endpoint ≡ false) where
    -- A well-formed packet of audio reaches the listener's downstream processor.
    pub carry-heard :
        (said : Said) (p : NetPacket) (sn up : ℕ) (bytes : List ℕ) (n : ℕ) (l : Line F Q X)
        (need_aec : Bool) (out : List ℤ) (z : X)
        → Carries audio_message sn up bytes p
        → length bytes ≤ 1004
        → Open need_aec n l
        → Delivers said
        → Takes queue engines need_aec l.listener.engines bytes out z
        → carry filters queue engines ends said p l
          ≡ some (record l {
            room = record (l.room) { counter = (l.room.counter + 1) % 2 ^ 32 };
            listener = heard queue engines l.listener p out z;
          })
    unfolding is_media
    carry-heard said p sn up bytes n l need_aec out z carries short o network takes =
        let fits : length p.whole_packet ≤ max_length = omega (arith, Carries-length carries) in
        let whole = p.whole_packet in
        let read : parse (take max_length whole) ≡ some p =
          ap parse (take_all max_length whole fits)
          ∙ subst (λ (w : List ℕ). parse w ≡ some p) (append-nil whole)
              (parse-IsWellFormed p [] carries.formed) in
        let a : Arrival = record {
          failed = false;
          sender_endpoint = ends.talker_endpoint;
          datagram = whole;
          new_address = said.new_address;
          up_time = said.server_up;
        } in
        let kind = carries.type_read in
        let taken : Takes queue engines l.listener.need_aec l.listener.engines (payload p) out z =
          subst (λ (b : List ℕ). Takes queue engines l.listener.need_aec l.listener.engines b out z)
            (sym carries.payload_read)
            (subst (λ (b : Bool). Takes queue engines b l.listener.engines bytes out z) (sym o.aec)
              takes) in
        carry-listener said p l _ o.connection (heard queue engines l.listener p out z) network
          (media_registered ends.server_tag l.room a p o.connection refl read (ap is_media kind)
            o.found)
          (broadcast_to l.room ends.talker_endpoint ends.listener_endpoint p o.connection o.distinct
            o.found o.registered apart)
          (receive_one ends.listener_tag said.listener_up p carries.formed fits)
          (handle_audio said.listener_up p l.listener _ kind
            (append-heard queue engines l.listener p out z kind taken))
