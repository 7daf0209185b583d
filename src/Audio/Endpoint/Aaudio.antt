-- ===== src/Audio/Endpoint/Aaudio.antt =====
-- client_essential/CallbackStyleAAudioEndpoint.hpp: the endpoint for Android keeps nothing and calls
-- nothing.
use easy_voice_call.Base.Int.{pos}
use easy_voice_call.ReturnType.{ReturnType, of_int}
use easy_voice_call.Audio.Endpoint.{Callback}

pub init : {W : Type 0} → Callback W → ReturnType
unfolding of_int
init f = of_int (pos 0)

pub async_start : ReturnType
unfolding of_int
async_start = of_int (pos 0)

pub sync_stop : ReturnType
unfolding of_int
sync_stop = of_int (pos 0)
