-- ===== src/Cli.antt =====
-- client_cli/Entry.cpp: main of the command-line client. What read_json gives and what the worker's
-- init does are arguments; only exceptions of the standard library are caught.
use easy_voice_call.Base.{
  ℕ, ◌≡◌, refl, Bool, true, false, Option, none, some, if◌then◌else◌, not, ◌&&◌, ◌==◌, ◌∙◌,
}
use easy_voice_call.Base.Int.{ℤ, pos, negsuc, is_negative, magnitude}
use easy_voice_call.Worker.Setup.{Result, returned, thrown, Worker, Libraries, Protocol, init}
use easy_voice_call.Worker.Setup.Success.{
  succeeded, configured, all_ready, is_none, client_of, init-succeeded,
}

-- syncStart, or asyncStart and a sleep of so many seconds.
pub data Start : Type 0 where
  syncs : Start
  asyncs_for : ℕ → Start

-- `exit_code` is `none` where an exception leaves main.
pub record Run : Type 0 where
  pub started : Option Start
  pub prints_usage : Bool
  pub exit_code : Option ℤ

start_for : ℤ → Start
start_for working_duration =
    if is_negative working_duration then syncs else asyncs_for (magnitude working_duration)

with_worker : ℤ → Result → Run
unfolding start_for
with_worker working_duration (returned r) = record {
  started = if r.ok then some (start_for working_duration) else none;
  prints_usage = false;
  exit_code = some (pos 0);
}
with_worker working_duration (thrown what) = record {
  started = none;
  prints_usage = false;
  exit_code = none;
}

-- The configuration's "cli.workingduration", with -1 where it has none; `none` is an exception of
-- read_json.
pub main : Option ℤ → Result → Run
unfolding with_worker
main none r = record { started = none; prints_usage = true; exit_code = some (negsuc 0) }
main (some working_duration) r = with_worker working_duration r

abbrev pub is_some : {A : Type 0} → Option A → Bool
is_some none = false
is_some (some x) = true

some-if : {A : Type 0} (b : Bool) (x : A) → is_some (if b then some x else none) ≡ b
some-if true x = refl
some-if false x = refl

main-succeeded :
    (working_duration : ℤ) (r : Result)
    → is_some (main (some working_duration) r).started ≡ succeeded r
unfolding main with_worker
main-succeeded working_duration (returned r) = some-if r.ok _
main-succeeded working_duration (thrown what) = refl

-- Once the configuration has been read, a call is started exactly if each library that the worker
-- needs is set up without an error, nothing raises an exception, and the protocol is known.
pub main-init :
    (working_duration : ℤ) (w : Worker) (need_aec : Option Bool) (lib : Libraries)
    (protocol : Protocol)
    → is_some (main (some working_duration) (init w need_aec lib protocol true).1).started ≡ (
        not (configured need_aec w.need_aec && not (lib.aec_init == 0))
        && (all_ready lib && not (is_none (client_of protocol))))
main-init working_duration w need_aec lib protocol =
    main-succeeded working_duration (init w need_aec lib protocol true).1
    ∙ (init-succeeded w need_aec lib protocol true).0
