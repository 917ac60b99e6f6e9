-- ===== src/Streams/Tests.antt =====
-- Small histories of the scheduler, and its theorems at them.
use nano_qwen3tts_vllm.Common.{
  ◌≡◌, ◌≢◌, refl, String, true, false, [], ◌∷◌, none, some, string_eq, option_eq, remove, is_space,
  lstrip, rstrip, strip, arith,
}
use nano_qwen3tts_vllm.Common.{ℕ_discrete}
use nano_qwen3tts_vllm.Common.Dict.{lookup, insert, erase, total}
use nano_qwen3tts_vllm.Streams.State.{
  running, finished, RequestData, Job, FairStreamScheduler, ok, raise, http, init,
  normalize_tenant_id, queued_total, remove_tenant_from_rr,
}
use nano_qwen3tts_vllm.Streams.Turns.{
  prune_queue, prune_tenant_head, take_head, turn, pop_rounds, pop_next_ready_stream,
  try_activate_next,
}
use nano_qwen3tts_vllm.Streams.Calls.{
  admit, enqueue, wait_begin, running_job, wait_activate, wait_round, wait_resume, close_job,
  mark_stream_done,
}
use nano_qwen3tts_vllm.Streams.Calls.Cancel.{unqueue, cancel_queued, cancel}
use nano_qwen3tts_vllm.Streams.Calls.{new_job}
use nano_qwen3tts_vllm.Streams.Validity.{IsValid}
use nano_qwen3tts_vllm.Streams.Completion.{finished_final}
use nano_qwen3tts_vllm.Streams.Outcomes.{Enqueues, enqueue-Enqueues}
use nano_qwen3tts_vllm.Streams.Waiting.{Waits, wait_round-Waits}
use nano_qwen3tts_vllm.Streams.Fairness.{IsUp, Serves, pop_next-Serves}
use nano_qwen3tts_vllm.Streams.History.{
  Reach, initial, next, enqueues, begins, polls, Reach-init-IsValid, running_once,
}
use nano_qwen3tts_vllm.Streams.Abandoned.{timed_out_stream_starts, wait_round_blocked}
use text.Mathlib.TextEquality.{eq_iff}

b_is_not_a : ◌≢◌ {A = String} "b" "a"
b_is_not_a = ground (arith, eq_iff "b" "a")

-- Names everything that a run computes with.
run : Unit {0}
unfolding init enqueue admit wait_begin wait_round wait_activate running_job try_activate_next
    pop_next_ready_stream pop_rounds turn take_head prune_tenant_head prune_queue
    remove_tenant_from_rr queued_total normalize_tenant_id strip rstrip lstrip is_space lookup
    insert erase total remove string_eq option_eq ℕ_discrete close_job mark_stream_done cancel
    cancel_queued unqueue wait_resume
run = tt

abbrev plain : RequestData
plain = record {
  cancel_event = some false;
  entries = [];
  temperature = none;
  ref_audio = none;
  ref_sr = none;
}

abbrev same_text : String → String
same_text s = s

-- Two tenants with one stream each.
abbrev two_queued : FairStreamScheduler
two_queued =
    (enqueue same_text "b" plain "u" "" 0 (enqueue same_text "a" plain "t" "" 0 (init 4 8 0)).1).1

abbrev both_asked : FairStreamScheduler
both_asked = (wait_begin "b" 0 (wait_begin "a" 0 two_queued).1).1

abbrev a_runs : FairStreamScheduler
a_runs = (wait_round "a" 1 none both_asked).1

order_of_two : two_queued.tenant_rr ≡ "t" ∷ "u" ∷ []
unfolding run
order_of_two = refl

a_is_active : a_runs.active_stream_id ≡ some "a"
unfolding run
a_is_active = refl

order_behind_a : a_runs.tenant_rr ≡ "u" ∷ []
unfolding run
order_behind_a = refl

-- The end of `a` starts `b`.
b_follows : (mark_stream_done "a" finished none 2 a_runs).1.active_stream_id ≡ some "b"
unfolding run
b_follows = refl

b_refused_twice :
    (enqueue same_text "c" plain "t" "" 0 (enqueue same_text "a" plain "t" "" 0 (init 1 8 0)).1).0
    ≡ raise (http 429)
unfolding run
b_refused_twice = refl

history_to_two : Reach same_text (init 4 8 0) two_queued
unfolding run
history_to_two =
    next (next initial (enqueues "a" plain "t" "" 0 refl)) (enqueues "b" plain "u" "" 0 refl)

history_to_a : Reach same_text (init 4 8 0) a_runs
history_to_a = next (next (next history_to_two (begins "a" 0)) (begins "b" 0)) (polls "a" 1 none)

both_asked-IsValid : IsValid both_asked
both_asked-IsValid =
    Reach-init-IsValid same_text 4 8 0 both_asked
      (next (next history_to_two (begins "a" 0)) (begins "b" 0))

Reach-init-IsValid_example : IsValid a_runs
Reach-init-IsValid_example = Reach-init-IsValid same_text 4 8 0 a_runs history_to_a

abbrev job_a : Job
job_a = record (new_job "t" plain 0) {
  state = running;
  stream_requested = true;
  started_at = some 1;
}

running_once_example : ◌≡◌ {A = String} "a" "a"
unfolding run
running_once_example =
    running_once same_text 4 8 0 a_runs "a" "a" job_a job_a history_to_a refl refl refl refl

b-IsUp : IsUp both_asked "u" "b" []
unfolding run
b-IsUp = record {
  job = record (new_job "u" plain 0) { stream_requested = true };
  queue = refl;
  here = refl;
  waits = refl;
  asked = refl;
}

pop_next-Serves_example : Serves "u" "b" [] 1 (pop_next_ready_stream both_asked)
unfolding run
pop_next-Serves_example =
    pop_next-Serves "u" "b" [] ("t" ∷ []) [] both_asked refl both_asked-IsValid.ordered b-IsUp

enqueue-Enqueues_example :
    Enqueues two_queued "c" plain "t" 0 (enqueue same_text "c" plain "t" "" 0 two_queued)
unfolding run
enqueue-Enqueues_example =
    enqueue-Enqueues two_queued "c" plain "t" 0 same_text "t" "" refl
      (Reach-init-IsValid same_text 4 8 0 two_queued history_to_two)

wait_round-Waits_example : Waits "a" 1 none both_asked (wait_round "a" 1 none both_asked)
wait_round-Waits_example = wait_round-Waits "a" 1 none both_asked both_asked-IsValid

b-IsUp_later : IsUp a_runs "u" "b" []
unfolding run
b-IsUp_later = record {
  job = record (new_job "u" plain 0) { stream_requested = true };
  queue = refl;
  here = refl;
  waits = refl;
  asked = refl;
}

timed_out_stream_starts_example :
    ((wait_resume true "b" 5 (some 5) a_runs).0 ≡ raise (http 408))
    × ((mark_stream_done "a" finished none 6
          (wait_resume true "b" 5 (some 5) a_runs).1).1.active_stream_id
        ≡ some "b")
unfolding run
timed_out_stream_starts_example =
    timed_out_stream_starts a_runs "a" "b" "u" finished none 5 6 (some 5) [] []
      (Reach-init-IsValid same_text 4 8 0 a_runs history_to_a) finished_final refl b-IsUp_later refl
      b_is_not_a

wait_round_blocked_example :
    ((wait_round "b" 2 none a_runs).1 ≡ a_runs)
    × ((job : Job) → (wait_round "b" 2 none a_runs).0 ≢ ok (some job))
unfolding run
wait_round_blocked_example = wait_round_blocked a_runs "a" "b" 2 none refl b_is_not_a
