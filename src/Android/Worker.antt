-- ===== src/Android/Worker.antt =====
-- init of client_android/app/src/main/cpp/Worker.cpp. All else of that file is as in
-- client_essential/Worker.cpp, of whose model it takes the types.
use Prim.Native.String.{String}
use easy_voice_call.Base.{
  ◌≡◌, refl, Bool, true, not, ◌&&◌, Option, none, some, ◌==◌, if◌then◌else◌, ap, Bool-cases, inl,
  inr,
}
use easy_voice_call.Base.Int.{pos}
use easy_voice_call.ReturnType.{of_int, of_text}
use easy_voice_call.Worker.Setup.{
  Worker, Libraries, Protocol, raw_udp, Client, raw_udp_client, Result, returned, thrown,
}
use easy_voice_call.Worker.Setup

-- The members of the desktop worker, and those that syncStart takes the server from.
pub record AndroidWorker : Type 0 where
  pub worker : Worker
  pub host : String
  pub port : String

set_endpoint : Worker → Libraries → Bool → Option String → Worker × Result
unfolding of_text of_int
set_endpoint w lib has_volume (some what) = (w, returned (of_text what))
set_endpoint w lib has_volume none =
    let set : Worker = record w { has_endpoint = true } in
    if lib.endpoint_init.ok
    then (
      record set { client = some raw_udp_client; has_volume_reporter = has_volume },
      returned (of_int (pos 0)),
    )
    else (set, returned lib.endpoint_init)

set_up : Worker → Libraries → Bool → Worker × Result
unfolding set_endpoint of_text
set_up w lib has_volume =
    if not (lib.vad_init == 0)
    then (w, returned (of_text "WebRtcVad_Init failed"))
    else if not (lib.vad_set_mode == 0)
    then (w, returned (of_text "WebRtcVad_set_mode failed"))
    else if not (lib.nsx_init == 0)
    then (w, returned (of_text "WebRtcNsx_Init failed"))
    else if not (lib.nsx_set_policy == 0)
    then (w, returned (of_text "WebRtcNsx_set_policy failed"))
    else if not lib.encoder_re_init
    then (w, returned (of_text "initCodec fail"))
    else set_endpoint w lib has_volume lib.endpoint_raised

pub init : AndroidWorker → String → String → Libraries → Bool → AndroidWorker × Result
unfolding set_up
init a host port lib has_volume =
    let told : Worker = record (a.worker) { need_aec = true } in
    if told.need_aec && not (lib.aec_init == 0)
    then (record { worker = told; host = host; port = port }, thrown "WebRtcAec_Init failed")
    else let (w, r) =
        set_up (record told { has_downstream = true; decoder_ready = lib.decoder_re_init }) lib
          has_volume in
      (record { worker = w; host = host; port = port }, r)

set_endpoint-desktop :
    (w : Worker) (lib : Libraries) (has_volume : Bool) (raised : Option String)
    → set_endpoint w lib has_volume raised ≡ Setup.set_endpoint w lib raw_udp has_volume raised
unfolding set_endpoint Setup.set_endpoint Setup.set_client
set_endpoint-desktop w lib has_volume none = refl
set_endpoint-desktop w lib has_volume (some what) = refl

set_up-desktop :
    (w : Worker) (lib : Libraries) (has_volume : Bool)
    → set_up w lib has_volume ≡ Setup.set_up w lib raw_udp has_volume
unfolding set_up Setup.set_up
set_up-desktop w lib has_volume =
    rw (set_endpoint-desktop w lib has_volume lib.endpoint_raised) refl

abbrev located : String → String → Worker × Result → AndroidWorker × Result
located host port (w, r) = (record { worker = w; host = host; port = port }, r)

-- The worker of the Android client is set up as the desktop's is with the echo canceller switched on
-- and the protocol raw_udp, whatever the libraries return, and keeps host and port.
pub init-desktop :
    (a : AndroidWorker) (host port : String) (lib : Libraries) (has_volume : Bool)
    → init a host port lib has_volume ≡ (
        let (w, r) = Setup.init a.worker (some true) lib raw_udp has_volume in
        (record { worker = w; host = host; port = port }, r))
unfolding init Setup.init
init-desktop a host port lib has_volume =
    let w : Worker = record (a.worker) {
      need_aec = true;
      has_downstream = true;
      decoder_ready = lib.decoder_re_init;
    } in
    elim (Bool-cases (not (lib.aec_init == 0))) [
      | inl failed ↦ rw failed refl
      | inr ready ↦ rw ready (ap (located host port) (set_up-desktop w lib has_volume))
    ]
