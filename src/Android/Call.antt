-- ===== src/Android/Call.antt =====
-- The calls of client_android/app/src/main/cpp/Worker.cpp behind init. Their text is that of
-- client_essential/Worker.cpp, except that syncStart takes the server from the members that init has
-- set. What the resolver raises for a host and a port is an argument.
use Prim.Native.String.{String}
use easy_voice_call.Base.{ℕ, ◌≡◌, ap, Bool, List, Option}
use easy_voice_call.Base.Int.{ℤ}
use easy_voice_call.ReturnType.{ReturnType}
use easy_voice_call.NetPacket.{NetPacket}
use easy_voice_call.Audio.Downstream.{Segment, Engines}
use easy_voice_call.Audio.Downstream.Queue.{SpscQueue}
use easy_voice_call.Worker.Setup
use easy_voice_call.Worker.Setup.{Worker, Libraries, StopAction, raw_udp}
use easy_voice_call.Worker.Voice
use easy_voice_call.Worker.Voice.{Filters, VoiceState, Clock, Event}
use easy_voice_call.Worker.Sound
use easy_voice_call.Worker.Sound.{SoundState, Callback, Played}
use easy_voice_call.Worker.Call
use easy_voice_call.Worker.Call.{Surroundings, HeartBeat, Round, Action}
use easy_voice_call.Android.Worker.{AndroidWorker, init, init-desktop}

pub sync_stop : AndroidWorker → AndroidWorker × List StopAction
sync_stop a = let (w, actions) = Setup.sync_stop a.worker in (record a { worker = w }, actions)

module _ (git_tag : List ℕ) where
  pub on_data_received : NetPacket → Bool → ℕ → List Action × Bool
  on_data_received = Call.on_data_received git_tag

  pub send_heartbeat : HeartBeat → Round → HeartBeat × List Action
  send_heartbeat = Call.send_heartbeat git_tag

  pub sync_start :
      AndroidWorker
      → (String → String → Option String)
      → Surroundings
      → HeartBeat
      → List Action × ReturnType × HeartBeat
  sync_start a resolve e h = Call.sync_start git_tag (record e { raised = resolve a.host a.port }) h

  pub ns_aec_volume_vad_send :
      {F : Type 0}
      → Filters F
      → VoiceState F
      → List ℤ
      → Clock
      → Bool
      → Bool
      → Option (VoiceState F × List Event)
  ns_aec_volume_vad_send filters = Voice.ns_aec_volume_vad_send filters git_tag

  -- The function that init hands to the sound card.
  pub callback :
      {F Q X : Type 0}
      → Filters F
      → SpscQueue Segment Q
      → Engines X
      → SoundState F Q X
      → Callback
      → Bool
      → Bool
      → Option (Played F Q X)
  callback filters queue engines = Sound.callback filters queue engines git_tag

  -- A call of the Android client that follows init is the desktop's call to the host and the port that
  -- init was given.
  pub init-sync_start :
      (a : AndroidWorker) (host port : String) (lib : Libraries) (has_volume : Bool)
      (resolve : String → String → Option String) (e : Surroundings) (h : HeartBeat)
      → sync_start (init a host port lib has_volume).0 resolve e h
        ≡ Call.sync_start git_tag (record e { raised = resolve host port }) h
  unfolding sync_start
  init-sync_start a host port lib has_volume resolve e h =
      ap
        (λ (r : AndroidWorker × Setup.Result).
          Call.sync_start git_tag (record e { raised = resolve r.0.host r.0.port }) h)
        (init-desktop a host port lib has_volume)
