-- ===== src/Worker/Call/Heartbeat.antt =====
-- The heartbeats of a call: sendHeartbeat and the sending loop of client_essential/Worker.cpp.
use easy_voice_call.Base.{
  ℕ, suc, ◌+◌, ◌-◌, ◌*◌, ◌≤◌, ◌<◌, ◌≡◌, ◌⊎◌, List, [], ◌∷◌, ◌++◌, arith, length, inl, inr, Bool,
  true, false, if◌then◌else◌, ◌%◌, ◌^◌, ap, ◌∙◌,
}
use easy_voice_call.NetPacket.{PayloadType, heart_beat_request, payload_type, new}
use easy_voice_call.NetPacket.Fields.{new-Carries}
use easy_voice_call.Audio.VolumeMeter.{one_second}
use easy_voice_call.Worker.Call.{
  Action, sends, sleeps_ms, HeartBeat, Round, send_heartbeat, sending_work,
}

abbrev pub is_heartbeat : PayloadType → Bool
is_heartbeat heart_beat_request = true
is_heartbeat _ = false

-- How many HeartBeatRequests a trace sends.
abbrev pub heartbeats : List Action → ℕ
heartbeats [] = 0
heartbeats (sends p ∷ as') =
    let rest = heartbeats as' in if is_heartbeat (payload_type p) then 1 + rest else rest
heartbeats (_ ∷ as') = heartbeats as'

heartbeats-append : (xs ys : List Action) → heartbeats (xs ++ ys) ≡ heartbeats xs + heartbeats ys
heartbeats-append [] ys = omega arith
heartbeats-append (sends p ∷ xs) ys = rw (heartbeats-append xs ys) (ground arith)
heartbeats-append (_ ∷ xs) ys = heartbeats-append xs ys

-- Rounds whose clock goes on by the three seconds of sleep at least, from the time `prev` on, at times
-- that fit the header of a packet.
abbrev pub Ticks : ℕ → List Round → Type 0
Ticks prev [] = Unit {0}
Ticks prev (r ∷ rs) =
    (prev + 3 * one_second ≤ r.now) × (r.now ≤ r.later) × (r.up_time < 2 ^ 32) × Ticks r.later rs

one_heartbeat :
    (git_tag : List ℕ) (sn up : ℕ)
    → 4 ≤ length git_tag
    → sn < 2 ^ 32
    → up < 2 ^ 32
    → heartbeats (sends (new git_tag heart_beat_request sn up) ∷ []) ≡ 1
one_heartbeat git_tag sn up tagged sn_fits up_fits =
    let kind = (new-Carries git_tag heart_beat_request sn up tagged tt sn_fits up_fits).type_read in
    ap (λ (b : Bool). if b then 1 + 0 else 0) (ap is_heartbeat kind) ∙ omega arith

beat :
    (git_tag : List ℕ) (h : HeartBeat) (r : Round)
    → 4 ≤ length git_tag
    → r.up_time < 2 ^ 32
    → let (next, sent) = send_heartbeat git_tag h r in
      ((10 * one_second < r.now - h.last_time_stamp)
        × (next.last_time_stamp ≡ r.later)
        × (heartbeats sent ≡ 1))
      ⊎ ((r.now - h.last_time_stamp ≤ 10 * one_second) × (next ≡ h) × (heartbeats sent ≡ 0))
unfolding send_heartbeat
beat git_tag h r tagged up_fits =
    let sn = (h.sn_sending_heart_beat + 1) % 2 ^ 32 in
    let one = one_heartbeat git_tag sn r.up_time tagged (omega arith) up_fits in ground (arith, one)

-- `k` rounds ago, at most, the last heartbeat was sent.
keeps_alive_from :
    (git_tag : List ℕ) (k prev : ℕ) (h : HeartBeat) (rs : List Round)
    → 4 ≤ length git_tag
    → k ≤ 3
    → h.last_time_stamp + k * (3 * one_second) ≤ prev
    → Ticks prev rs
    → length rs + k ≤ 4 * heartbeats (sending_work git_tag h rs).1 + 3
unfolding sending_work
keeps_alive_from git_tag k prev h [] tagged small old ticks = omega arith
keeps_alive_from git_tag k prev h (r ∷ rs) tagged small old (later, asleep, up_fits, more) =
    let next = (send_heartbeat git_tag h r).0 in
    let sent = (send_heartbeat git_tag h r).1 in
    let rest = (sending_work git_tag next rs).1 in
    let counted = heartbeats-append sent (sleeps_ms 3000 ∷ rest) in
    elim (beat git_tag h r tagged up_fits) [
      | inl (due, stamp, one) ↦
          let follow =
            keeps_alive_from git_tag 0 r.later next rs tagged (omega arith) (omega arith) more in
          rw (counted, one) (omega arith)
      | inr (early, same, silent) ↦
          let follow =
            keeps_alive_from git_tag (suc k) r.later next rs tagged (omega arith)
              (rw same (omega arith)) more in
          rw (counted, silent) (omega arith)
    ]

-- While the clock goes on by three seconds a round, and does not stand before the last heartbeat at
-- the start, the sending loop sends a HeartBeatRequest at least every fourth round: in n rounds, four
-- times the number of HeartBeatRequests is at least n - 3, if the version has four bytes and the times
-- fit 32 bits.
pub keeps_alive :
    (git_tag : List ℕ) (prev : ℕ) (h : HeartBeat) (rs : List Round)
    → 4 ≤ length git_tag
    → h.last_time_stamp ≤ prev
    → Ticks prev rs
    → length rs ≤ 4 * heartbeats (sending_work git_tag h rs).1 + 3
keeps_alive git_tag prev h rs tagged start ticks =
    let counted = keeps_alive_from git_tag 0 prev h rs tagged (omega arith) (omega arith) ticks in
    omega arith
