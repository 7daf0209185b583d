-- ===== src/Worker/Setup.antt =====
-- init and syncStop of client_essential/Worker.cpp. What the libraries return is an argument, and so
-- is the exception that setting up the sound card raises, if any. The text of the exception for an
-- unknown protocol begins with that protocol, which is left out here.
pub mod Success
use Prim.Native.String.{String}
use easy_voice_call.Base.{
  ℕ, Bool, true, false, not, ◌&&◌, List, [], ◌∷◌, ◌++◌, Option, none, some, ◌==◌, if◌then◌else◌,
}
use easy_voice_call.Base.Int.{pos}
use easy_voice_call.ReturnType.{ReturnType, of_int, of_text}

-- The configuration's "protocol", and the client that is made for it.
pub data Protocol : Type 0 where
  raw_udp : Protocol
  raw_tcp : Protocol
  unknown : Protocol

pub data Client : Type 0 where
  raw_udp_client : Client
  tcp_client : Client

pub record Libraries : Type 0 where
  pub aec_init : ℕ
  pub vad_init : ℕ
  pub vad_set_mode : ℕ
  pub nsx_init : ℕ
  pub nsx_set_policy : ℕ
  pub decoder_re_init : Bool
  pub encoder_re_init : Bool
  pub endpoint_raised : Option String
  pub endpoint_init : ReturnType

-- The members that init sets, and the threads of a call, with whether they can be joined.
pub record Worker : Type 0 where
  pub need_aec : Bool
  pub has_downstream : Bool
  pub decoder_ready : Bool
  pub has_endpoint : Bool
  pub client : Option Client
  pub has_volume_reporter : Bool
  pub has_vad_reporter : Bool
  pub goto_stop : Bool
  pub net_thread : Option Bool
  pub duration_timer : Option Bool

pub data Result : Type 0 where
  returned : ReturnType → Result
  thrown : String → Result

unfoldable pub set_client : Worker → Protocol → Bool → Worker × Result
unfolding of_int
set_client w raw_udp has_volume = (
  record w { client = some raw_udp_client; has_volume_reporter = has_volume },
  returned (of_int (pos 0)),
)
set_client w raw_tcp has_volume = (
  record w { client = some tcp_client; has_volume_reporter = has_volume },
  returned (of_int (pos 0)),
)
set_client w unknown has_volume = (w, thrown "unknown protocol")

unfoldable pub set_endpoint : Worker → Libraries → Protocol → Bool → Option String → Worker × Result
unfolding set_client of_text
set_endpoint w lib protocol has_volume (some what) = (w, returned (of_text what))
set_endpoint w lib protocol has_volume none =
    let set : Worker = record w { has_endpoint = true } in
    if lib.endpoint_init.ok
    then set_client set protocol has_volume
    else (set, returned lib.endpoint_init)

-- The block under `try`.
unfoldable pub set_up : Worker → Libraries → Protocol → Bool → Worker × Result
unfolding set_endpoint of_text
set_up w lib protocol has_volume =
    if not (lib.vad_init == 0)
    then (w, returned (of_text "WebRtcVad_Init failed"))
    else if not (lib.vad_set_mode == 0)
    then (w, returned (of_text "WebRtcVad_set_mode failed"))
    else if not (lib.nsx_init == 0)
    then (w, returned (of_text "WebRtcNsx_Init failed"))
    else if not (lib.nsx_set_policy == 0)
    then (w, returned (of_text "WebRtcNsx_set_policy failed"))
    else if not lib.encoder_re_init
    then (w, returned (of_text "initCodec fail"))
    else set_endpoint w lib protocol has_volume lib.endpoint_raised

-- The configuration's "needAec", if it has one, and whether a volume reporter is given. The vadReporter
-- is not used, and neither is what the downstream processor gets from setting up its decoder.
unfoldable pub init : Worker → Option Bool → Libraries → Protocol → Bool → Worker × Result
unfolding set_up
init w need_aec lib protocol has_volume =
    let told : Worker = record w { need_aec = elim need_aec [ none ↦ w.need_aec | some b ↦ b ] } in
    if told.need_aec && not (lib.aec_init == 0)
    then (told, thrown "WebRtcAec_Init failed")
    else set_up (record told { has_downstream = true; decoder_ready = lib.decoder_re_init }) lib
        protocol has_volume

pub data StopAction : Type 0 where
  stops_endpoint : StopAction
  joins_net_thread : StopAction
  joins_duration_timer : StopAction

join : Option Bool → StopAction → List StopAction
join none action = []
join (some joinable) action = if joinable then action ∷ [] else []

-- What syncStop waits for, in its order.
pub sync_stop : Worker → Worker × List StopAction
unfolding join
sync_stop w = (
  record w { goto_stop = true; has_endpoint = false; net_thread = none; duration_timer = none },
  (if w.has_endpoint then stops_endpoint ∷ [] else [])
      ++ (join w.net_thread joins_net_thread ++ join w.duration_timer joins_duration_timer),
)
