-- ===== src/Examples/Setup.antt =====
-- Setting up and stopping the worker of client_essential/Worker.cpp, and the recorded microphone, at
-- concrete inputs.
use easy_voice_call.Base.{◌≡◌, refl, some, none, true, false, replicate}
use easy_voice_call.Base.Int.{pos}
use easy_voice_call.ReturnType.{empty, of_int}
use easy_voice_call.Audio.InStub.{AudioInStub}
use easy_voice_call.Worker.Setup.{
  Libraries, Worker, raw_udp, returned, init, set_up, set_endpoint, set_client,
}

abbrev libraries : Libraries
libraries = record {
  aec_init = 1;
  vad_init = 0;
  vad_set_mode = 0;
  nsx_init = 0;
  nsx_set_policy = 0;
  decoder_re_init = false;
  encoder_re_init = true;
  endpoint_raised = none;
  endpoint_init = record { ok = true; error_message = empty };
}

abbrev worker : Worker
worker = record {
  need_aec = false;
  has_downstream = false;
  decoder_ready = false;
  has_endpoint = true;
  client = none;
  has_volume_reporter = false;
  has_vad_reporter = false;
  goto_stop = false;
  net_thread = some true;
  duration_timer = none;
}

-- The decoder could not be set up, and init succeeds.
ready : (init worker none libraries raw_udp true).1 ≡ returned (of_int (pos 0))
unfolding init set_up set_endpoint set_client
ready = refl

abbrev recording : AudioInStub
recording = record { whole_pcm = replicate 400 (pos 3); pos = 0 }
