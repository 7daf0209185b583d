-- ===== src/Worker/Setup/Success.antt =====
-- When the worker of client_essential/Worker.cpp is ready, and that it stops once.
use Prim.Native.String.{String}
use easy_voice_call.Base.{
  ◌≡◌, refl, Bool, true, false, not, ◌&&◌, [], Option, none, some, ◌==◌, arith,
}
use easy_voice_call.ReturnType.{of_int, of_text}
use easy_voice_call.Worker.Setup.{
  Protocol, raw_udp, raw_tcp, unknown, Client, raw_udp_client, tcp_client, Libraries, Worker,
  Result, returned, thrown, set_client, set_endpoint, set_up, init, join, sync_stop,
}

abbrev pub succeeded : Result → Bool
succeeded (returned r) = r.ok
succeeded (thrown what) = false

abbrev pub is_none {ℓ} : {A : Type ℓ} → Option A → Bool
is_none none = true
is_none (some x) = false

abbrev pub client_of : Protocol → Option Client
client_of raw_udp = some raw_udp_client
client_of raw_tcp = some tcp_client
client_of unknown = none

-- The libraries without the echo canceller.
abbrev pub all_ready : Libraries → Bool
all_ready lib =
    lib.vad_init == 0
    && lib.vad_set_mode == 0
    && lib.nsx_init == 0
    && lib.nsx_set_policy == 0
    && lib.encoder_re_init
    && is_none lib.endpoint_raised
    && lib.endpoint_init.ok

set_endpoint-succeeded :
    (w : Worker) (lib : Libraries) (protocol : Protocol) (v : Bool) (raised : Option String)
    → (succeeded (set_endpoint w lib protocol v raised).1
        ≡ (is_none raised && lib.endpoint_init.ok && not (is_none (client_of protocol))))
      × ((set_endpoint w lib protocol v raised).0.has_vad_reporter ≡ w.has_vad_reporter)
unfolding set_endpoint set_client of_text of_int
set_endpoint-succeeded w lib raw_udp v none = (ground arith, ground arith)
set_endpoint-succeeded w lib raw_udp v (some what) = (refl, refl)
set_endpoint-succeeded w lib raw_tcp v none = (ground arith, ground arith)
set_endpoint-succeeded w lib raw_tcp v (some what) = (refl, refl)
set_endpoint-succeeded w lib unknown v none = (ground arith, ground arith)
set_endpoint-succeeded w lib unknown v (some what) = (refl, refl)

set_up-succeeded :
    (w : Worker) (lib : Libraries) (protocol : Protocol) (v : Bool)
    → (succeeded (set_up w lib protocol v).1
        ≡ (all_ready lib && not (is_none (client_of protocol))))
      × ((set_up w lib protocol v).0.has_vad_reporter ≡ w.has_vad_reporter)
unfolding set_up of_text
set_up-succeeded w lib protocol v =
    let (success, vad) = set_endpoint-succeeded w lib protocol v lib.endpoint_raised in
    (ground arith, ground arith)

abbrev pub configured : Option Bool → Bool → Bool
configured none b = b
configured (some need_aec) b = need_aec

-- init returns success exactly if each library that it tests is set up without an error, the echo
-- canceller only where it is configured, nothing raises an exception, and the protocol is known; an
-- error of the decoder is not among them. Whether a reporter for the voice detector is set stays as it
-- was.
pub init-succeeded :
    (w : Worker) (need_aec : Option Bool) (lib : Libraries) (protocol : Protocol) (v : Bool)
    → (succeeded (init w need_aec lib protocol v).1 ≡ (
        not (configured need_aec w.need_aec && not (lib.aec_init == 0))
        && (all_ready lib && not (is_none (client_of protocol)))))
      × ((init w need_aec lib protocol v).0.has_vad_reporter ≡ w.has_vad_reporter)
unfolding init
init-succeeded w none lib protocol v =
    let (success, vad) =
      set_up-succeeded (record w { has_downstream = true; decoder_ready = lib.decoder_re_init }) lib
        protocol v in
    (ground arith, ground arith)
init-succeeded w (some b) lib protocol v =
    let (success, vad) =
      set_up-succeeded
        (record w { need_aec = b; has_downstream = true; decoder_ready = lib.decoder_re_init }) lib
        protocol v in
    (ground arith, ground arith)

-- After syncStop the flag is set and neither endpoint nor thread is left, and a second syncStop, from
-- the destructor, say, waits for nothing and changes nothing.
pub sync_stop-sync_stop : (w : Worker) → sync_stop (sync_stop w).0 ≡ ((sync_stop w).0, [])
unfolding sync_stop join
sync_stop-sync_stop w = refl
