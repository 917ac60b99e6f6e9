-- ===== src/Engine/Talker/Steps.antt =====
-- The steps of the talker's engine, lines 114-134 of talker_llm_engine.py.
use nano_qwen3tts_vllm.Common.{
  ℕ, ◌+◌, String, Bool, true, false, List, [], ◌∷◌, Option, length, if◌then◌else◌, nat_eq,
  string_eq, ℤ, pos, neg,
}
use nano_qwen3tts_vllm.Engine.Effects.{Result, ok, ◌>>=◌}
use nano_qwen3tts_vllm.Engine.Sequence.{Sequence, is_finished, completion_token_ids}
use nano_qwen3tts_vllm.Engine.Scheduler.{Scheduler, seq_at}
use nano_qwen3tts_vllm.Engine.Talker.{RequestScheduler, talker_schedule, talker_postprocess}

-- The sequences of a list of ids.
unfoldable pub seqs_at : Scheduler → List ℕ → Result (List Sequence)
seqs_at s [] = ok []
seqs_at s (id ∷ ids) = do q ← seq_at s id; qs ← seqs_at s ids; ok (q ∷ qs)

-- An output: the request, the sequence, its completion and whether it is finished.
pub record Output : Type 0 where
  pub request_id : Option String
  pub seq_id : ℕ
  pub token_ids : List ℕ
  pub finished_now : Bool

abbrev pub output_of : Sequence → Output
output_of q = record {
  request_id = q.request_id;
  seq_id = q.seq_id;
  token_ids = completion_token_ids q;
  finished_now = is_finished q;
}

unfoldable pub all_outputs : List Sequence → List Output
all_outputs [] = []
all_outputs (q ∷ qs) = output_of q ∷ all_outputs qs

unfoldable pub finished_outputs : List Sequence → List Output
finished_outputs [] = []
finished_outputs (q ∷ qs) =
    let rest = finished_outputs qs in if is_finished q then output_of q ∷ rest else rest

unfoldable pub sum_lengths : List Sequence → ℕ
sum_lengths [] = 0
sum_lengths (q ∷ qs) = q.num_tokens + sum_lengths qs

-- Line 133: the tokens of a prefill, or minus the number of sequences of a decode.
abbrev pub num_tokens_of : Bool → List Sequence → ℤ
num_tokens_of true qs = pos (sum_lengths qs)
num_tokens_of false qs = neg (length qs)

pub record Stepped : Type 0 where
  pub outputs : List Output
  pub num_tokens : ℤ
  pub outputs_all : List Output
  pub later : RequestScheduler

-- Lines 126-134, after `schedule`.
abbrev pub run_scheduled :
    (List Sequence → Bool → List ℕ) → RequestScheduler → List ℕ × Bool × Scheduler → Result Stepped
run_scheduled runner s ([], is_prefill, base) = ok (record {
  outputs = [];
  num_tokens = pos 0;
  outputs_all = [];
  later = record s { base = base };
})
run_scheduled runner s (id ∷ ids, is_prefill, base) = do
  qs ← seqs_at base (id ∷ ids)
  s' ← talker_postprocess (id ∷ ids) (runner qs is_prefill) (record s { base = base })
  qs' ← seqs_at s'.base (id ∷ ids)
  ok (record {
    outputs = finished_outputs qs';
    num_tokens = num_tokens_of is_prefill qs';
    outputs_all = all_outputs qs';
    later = s';
  })

-- `step_with_outputs`
unfoldable pub step_with_outputs :
    (List ℕ → Option ℕ → ℕ) → (List Sequence → Bool → List ℕ) → RequestScheduler → Result Stepped
step_with_outputs digest runner s = do r ← talker_schedule digest s.base; run_scheduled runner s r

-- `step`, whose lines 115-121 are the same without `outputs_all`.
unfoldable pub talker_step :
    (List ℕ → Option ℕ → ℕ)
    → (List Sequence → Bool → List ℕ)
    → RequestScheduler
    → Result (List Output × ℤ × RequestScheduler)
talker_step digest runner s = do
  r ← talker_schedule digest s.base
  stepped ← run_scheduled runner s r
  ok (stepped.outputs, stepped.num_tokens, stepped.later)
