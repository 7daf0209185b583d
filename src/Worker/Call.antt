-- ===== src/Worker/Call.antt =====
-- syncStart, the handler of received packets, sendHeartbeat and syncStop of client_essential/Worker.cpp.
-- A call's trace is the list of what it does to its surroundings. What the other threads do meanwhile
-- is an argument: at which poll the client is connected, after how many polls the LoginResponse has
-- come, and how often the heartbeat loop finds the flag `gotoStop_` clear.
pub mod Trace
pub mod Login
pub mod Heartbeat
use Prim.Native.String.{String}
use easy_voice_call.Base.{
  ℕ, zero, suc, ◌+◌, ◌-◌, ◌*◌, ◌%◌, ◌^◌, Bool, true, false, not, List, [], ◌∷◌, ◌++◌, Option, none,
  some, ltb, if◌then◌else◌,
}
use easy_voice_call.Base.Int.{pos}
use easy_voice_call.ReturnType.{ReturnType, of_int, of_text}
use easy_voice_call.NetPacket.{
  NetPacket, PayloadType, heart_beat_request, heart_beat_response, login_request, login_response,
  logout_request, audio_message, audio_message_cn, new, payload_type,
}
use easy_voice_call.Audio.VolumeMeter.{one_second}

pub data NetworkState : Type 0 where
  disconnected : NetworkState
  connecting : NetworkState
  connected : NetworkState

pub data Action : Type 0 where
  toggles_state : NetworkState → String → Action
  reports_duration : ℕ → Action
  sends : NetPacket → Action
  appends : NetPacket → Action
  starts_endpoint : Action
  starts_timer : Action
  sleeps_ms : ℕ → Action

-- The static time stamp and the serial number of sendHeartbeat.
pub record HeartBeat : Type 0 where
  pub last_time_stamp : ℕ
  pub sn_sending_heart_beat : ℕ

-- One round of the sending loop: the two calls of the clock, and the process's uptime.
pub record Round : Type 0 where
  pub now : ℕ
  pub later : ℕ
  pub up_time : ℕ

-- A phase that polls every `ms` milliseconds, `n` times at most, from poll `i` on.
pub wait_for : (ℕ → Bool) → ℕ → ℕ → ℕ → List Action × Bool
wait_for is_done ms zero i = ([], false)
wait_for is_done ms (suc n) i =
    let (waited, done) = wait_for is_done ms n (i + 1) in
    if is_done i then ([], true) else (sleeps_ms ms ∷ waited, done)

-- The thread of the duration timer from second `s` on, for as many rounds as it finds `gotoStop_` clear.
unfoldable pub duration_timer : ℕ → ℕ → List Action
duration_timer s zero = []
duration_timer s (suc n) = sleeps_ms 1000 ∷ reports_duration s ∷ duration_timer ((s + 1) % 2 ^ 32) n

-- What happens around one call of syncStart. `is_login i` is the flag at poll `i` of the login
-- phase, the tenth of which is the test behind it; `raised` is the exception of `init`, if any.
pub record Surroundings : Type 0 where
  pub raised : Option String
  pub is_connected : ℕ → Bool
  pub is_login : ℕ → Bool
  pub has_duration_reporter : Bool
  pub rounds : List Round
  pub login_up_time : ℕ
  pub logout_up_time : ℕ

module _ (git_tag : List ℕ) where
  -- The callback of `init`: what it sends or appends, and whether it sets `isLogin`.
  unfoldable pub on_payload_type : PayloadType → NetPacket → Bool → ℕ → List Action × Bool
  on_payload_type heart_beat_request p has_downstream up_time =
      (sends (new git_tag heart_beat_response 0 up_time) ∷ [], false)
  on_payload_type login_response p has_downstream up_time = ([], true)
  on_payload_type audio_message_cn p has_downstream up_time =
      (if has_downstream then appends p ∷ [] else [], false)
  on_payload_type audio_message p has_downstream up_time =
      (if has_downstream then appends p ∷ [] else [], false)
  on_payload_type _ p has_downstream up_time = ([], false)

  unfoldable pub on_data_received : NetPacket → Bool → ℕ → List Action × Bool
  unfolding on_payload_type
  on_data_received p has_downstream up_time =
      on_payload_type (payload_type p) p has_downstream up_time

  pub send_heartbeat : HeartBeat → Round → HeartBeat × List Action
  send_heartbeat h r =
      if ltb (10 * one_second) (r.now - h.last_time_stamp)
      then (
        record {
          last_time_stamp = r.later;
          sn_sending_heart_beat = (h.sn_sending_heart_beat + 1) % 2 ^ 32;
        },
        sends (new git_tag heart_beat_request ((h.sn_sending_heart_beat + 1) % 2 ^ 32) r.up_time)
            ∷ [],
      )
      else (h, [])

  -- The loop of the sending work, for as many rounds as it finds `gotoStop_` clear.
  pub sending_work : HeartBeat → List Round → HeartBeat × List Action
  unfolding send_heartbeat
  sending_work h [] = (h, [])
  sending_work h (r ∷ rs) =
      let (beaten, sent) = send_heartbeat h r in
      let (last, more) = sending_work beaten rs in (last, sent ++ (sleeps_ms 3000 ∷ more))

  -- From the test of `isLogin` on.
  logged_in : Surroundings → HeartBeat → Bool → List Action × ReturnType × HeartBeat
  unfolding sending_work of_int of_text
  logged_in e h false = (
    toggles_state disconnected "Could not Login to Server..." ∷ [],
    of_text "Could not Login to Server...",
    h,
  )
  logged_in e h true =
      let (last, work) = sending_work h e.rounds in
      (
        (toggles_state connected "" ∷ starts_endpoint ∷ [])
            ++ ((if e.has_duration_reporter then starts_timer ∷ [] else [])
                ++ (work ++ (sends (new git_tag logout_request 0 e.logout_up_time) ∷ []))),
        of_int (pos 0),
        last,
      )

  login_phase : Surroundings → HeartBeat → List Action × ReturnType × HeartBeat
  unfolding wait_for logged_in
  login_phase e h =
      let (waited, done) = wait_for e.is_login 30 10 0 in
      let (actions, result, last) = logged_in e h (if done then true else e.is_login 10) in
      (sends (new git_tag login_request 0 e.login_up_time) ∷ (waited ++ actions), result, last)

  connected_or_not : Surroundings → HeartBeat → Bool → List Action × ReturnType × HeartBeat
  unfolding login_phase of_text
  connected_or_not e h true = login_phase e h
  connected_or_not e h false = (
    toggles_state disconnected "Could not connect to Server..."
        ∷ (if e.has_duration_reporter then reports_duration 0 ∷ [] else []),
    of_text "Could not connect to Server...",
    h,
  )

  connecting_phase : Surroundings → HeartBeat → Option String → List Action × ReturnType × HeartBeat
  unfolding wait_for connected_or_not of_text
  connecting_phase e h (some what) = ([], of_text what, h)
  connecting_phase e h none =
      let (waited, done) = wait_for e.is_connected 10 10 0 in
      let (actions, result, last) = connected_or_not e h done in (waited ++ actions, result, last)

  pub sync_start : Surroundings → HeartBeat → List Action × ReturnType × HeartBeat
  unfolding connecting_phase
  sync_start e h = connecting_phase e h e.raised
