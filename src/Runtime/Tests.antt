-- ===== src/Runtime/Tests.antt =====
-- Runs of nano_qwen3tts_vllm/model_runtime.py.
use native.Mathlib.Decide.{ℕ_discrete}
use nano_qwen3tts_vllm.Common.{
  ℕ, List, ◌≡◌, refl, inr, true, false, [], ◌∷◌, none, some, option_eq, string_eq, remove,
}
use nano_qwen3tts_vllm.Runtime.{ModelRuntime, Outcomes, raised, http_500, switch_model_if_needed}
use nano_qwen3tts_vllm.Engine.Effects.{raise, runtime_error}
use nano_qwen3tts_vllm.Runtime.Decoding.{round_div, decode_batch}
use nano_qwen3tts_vllm.Runtime.Switched.{Leaves, IsLoaded, switch_model-Switches}

abbrev base_loaded : ModelRuntime
base_loaded = record {
  current_model_name = some "base";
  interface = some (record { model = "base"; bridge = some 1 });
  zmq_bridge = some 1;
  tokenizer = true;
  use_zmq = true;
  open_bridges = 1 ∷ [];
}

abbrev all_work : Outcomes
all_work = record {
  env_use_zmq = true;
  new_bridge = 2;
  opens_bridge = true;
  makes_interface = true;
  makes_tokenizer = true;
  stops_tasks = true;
  shuts_interface = true;
  shuts_tokenizer = true;
}

abbrev without_interface : Outcomes
without_interface = record all_work { makes_interface = false }

switch_model-Switches_example :
    Leaves all_work (IsLoaded "design") (switch_model_if_needed all_work "design" base_loaded)
switch_model-Switches_example =
    switch_model-Switches all_work "design" base_loaded
      (inr ("base", (refl, refl, (_, refl, refl))))

-- A bridge that was opened for an interface which cannot be made stays open.
bridge_stays_open : switch_model_if_needed without_interface "design" base_loaded ≡ (
  raised http_500,
  record {
    current_model_name = none;
    interface = none;
    zmq_bridge = some 2;
    tokenizer = false;
    use_zmq = true;
    open_bridges = 2 ∷ [];
  },
)
unfolding switch_model_if_needed option_eq string_eq remove ℕ_discrete
bridge_stays_open = refl

-- The next change does not close it.
bridge_is_lost :
    (switch_model_if_needed
      (record all_work { new_bridge = 3 })
      "design"
      (switch_model_if_needed without_interface "design" base_loaded).1).1.open_bridges
    ≡ 3 ∷ 2 ∷ []
unfolding switch_model_if_needed option_eq string_eq remove ℕ_discrete
bridge_is_lost = refl

-- Halves go to the even number.
halves_rounded : (round_div 5 2 ≡ 2) × (round_div 7 2 ≡ 4) × (round_div 8 3 ≡ 3)
unfolding round_div ℕ_discrete
halves_rounded = (refl, refl, refl)

abbrev as_decoded : List ℕ → List ℕ × ℕ
as_decoded codes = (codes, 24000)

unloaded_raises :
    decode_batch (λ n wav. wav) as_decoded (λ (sample : ℕ). sample) false (1 ∷ [])
    ≡ raise runtime_error
unfolding decode_batch
unloaded_raises = refl
