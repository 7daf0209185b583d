-- ===== src/System/Conversation.antt =====
-- From one client's microphone to another's speaker over UDP: client_essential/Worker.cpp, the server
-- of server/RawUdpServer.cpp, and client_essential/audio_engine/DownstreamProcessor.cpp.
use easy_voice_call.Base.{
  ℕ, ◌+◌, ◌%◌, ◌≤◌, ◌<◌, ◌≡◌, ◌^◌, refl, true, false, List, [], ◌∷◌, ◌++◌, some, length, take,
  arith,
}
use easy_voice_call.Base.Int.{ℤ}
use easy_voice_call.NetPacket.{NetPacket, audio_message, is_media}
use easy_voice_call.Audio.{block_size}
use easy_voice_call.Audio.Downstream.{Segment, Engines, DownstreamProcessor, append}
use easy_voice_call.Audio.Downstream.Queue.{SpscQueue}
use easy_voice_call.Audio.Downstream.Playback.{HasRoom, buffered, all_samples}
use easy_voice_call.Audio.Downstream.Speech.{Decodes, append_speech}
use easy_voice_call.Worker.Voice.{Filters, VoiceState, packet_sent, send_segment}
use easy_voice_call.Worker.Voice.Speaking.{send_segment-speech}
use easy_voice_call.Server.RawUdp.{RawUdpRoom, Arrival, on_datagram}
use easy_voice_call.Server.RawUdp.Peers.{Distinct}
use easy_voice_call.Server.RawUdp.Membership.{IsFresh}
use easy_voice_call.System.Speech.{Reaches, new_with_payload-Reaches}

-- The version strings of the three programs, the times of the two clients, and the datagram's way.
pub record Way : Type 0 where
  pub server_tag : List ℕ
  pub client_tag : List ℕ
  pub listener_tag : List ℕ
  pub up_time : ℕ
  pub listener_up : ℕ
  pub room : RawUdpRoom
  pub arrival : Arrival

module _ {F Q X : Type 0} (filters : Filters F) (queue : SpscQueue Segment Q)
    (engines : Engines X) where
  -- The packet that leaves the one client, its way to all others, and the segment that `listener`, the
  -- downstream processor of one of them, holds then.
  pub record Heard (way : Way) (s : VoiceState F) (segment : List ℤ)
      (listener : DownstreamProcessor Q X) (out : List ℤ) : Type 0 where
    pub packet : NetPacket
    pub sender : VoiceState F
    pub sent :
        send_segment filters way.client_tag s segment way.up_time
        ≡ some (sender, packet_sent packet ∷ [])
    pub reaches :
        Reaches way.room
          (record (way.arrival) { datagram = packet.whole_packet })
          way.listener_tag
          way.listener_up
          packet
          (on_datagram way.server_tag false way.room
            (record (way.arrival) { datagram = packet.whole_packet }))
    pub next : DownstreamProcessor Q X
    pub appended : append queue engines listener packet ≡ some next
    pub behind :
        all_samples queue engines (buffered queue engines next)
        ≡ all_samples queue engines (buffered queue engines listener) ++ (take block_size out ∷ [])

  -- A segment that counts as speech leaves the worker as one packet; the server in broadcast mode sends
  -- it to every other registered endpoint once, each client there reads it from its datagram, and a
  -- downstream processor that has room puts what its decoder makes of exactly the bytes that the
  -- encoder made of the segment behind all that it has buffered. The encoder makes 1004 bytes at most
  -- and the decoder a segment at least, neither they nor the socket fail, the version has four bytes,
  -- the time fits 32 bits, the connections of the room are pairwise apart, and a new one gets the
  -- address of no live one.
  pub speech-Heard :
      (way : Way) (s : VoiceState F) (segment : List ℤ) (bytes : List ℕ) (f : F)
      (listener : DownstreamProcessor Q X) (out : List ℤ)
      → s.send_opus ≡ true
      → filters.encode s.filters segment ≡ some (bytes, f)
      → length bytes ≤ 1004
      → 4 ≤ length way.client_tag
      → way.up_time < 2 ^ 32
      → way.arrival.failed ≡ false
      → Distinct way.room.peers
      → IsFresh way.arrival.new_address way.room
      → HasRoom queue engines listener
      → Decodes queue engines listener bytes out
      → Heard way s segment listener out
  unfolding is_media
  speech-Heard way s segment bytes f listener out speaks encoded short tagged up_fits ok distinct
        fresh free decodes =
      let sn = (s.sn_sending_audio + 1) % 2 ^ 32 in
      let (p, built, carries, reached) =
        new_with_payload-Reaches way.server_tag way.client_tag way.listener_tag audio_message sn
          way.up_time way.listener_up bytes way.room way.arrival refl tagged (omega arith) up_fits
          short ok distinct fresh in
      let (t, added, last) =
        append_speech queue engines listener p bytes out free carries.type_read carries.payload_read
          decodes in
      record {
        packet = p;
        sender = record s { filters = f; sn_sending_audio = sn };
        sent =
            send_segment-speech filters way.client_tag s segment way.up_time bytes f p speaks
              encoded built;
        reaches = reached;
        next = t;
        appended = added;
        behind = last;
      }
