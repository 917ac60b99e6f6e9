-- ===== src/Runtime.antt =====
-- nano_qwen3tts_vllm/model_runtime.py: the model that is loaded, and the change to another. The calls of
-- torch, of the interface and of sockets either do their work or raise, as `Outcomes` says for one call of
-- `switch_model_if_needed`, which is taken whole: nothing else changes the runtime meanwhile. The tasks
-- that are started on the event loop are left out.
pub mod Switched
pub mod Decoding
mod Tests
use nano_qwen3tts_vllm.Common.{
  ℕ, String, Bool, true, false, List, ◌∷◌, Option, none, some, string_eq, nat_eq, option_eq, remove,
  if◌then◌else◌, ◌==◌,
}

-- A `Qwen3TTSInterface`: the model it was made from and the bridge it was given.
pub record Interface : Type 0 where
  pub model : String
  pub bridge : Option ℕ

-- The fields of `ModelRuntime`, and the bridges whose sockets are open.
pub record ModelRuntime : Type 0 where
  pub current_model_name : Option String
  pub interface : Option Interface
  pub zmq_bridge : Option ℕ
  pub tokenizer : Bool
  pub use_zmq : Bool
  pub open_bridges : List ℕ

-- `env_use_zmq` is the test of the variable USE_ZMQ, `new_bridge` the bridge that is made; each other
-- field says whether that call does its work or raises. The calls that close a bridge, after its tasks
-- have stopped, do not raise.
pub record Outcomes : Type 0 where
  pub env_use_zmq : Bool
  pub new_bridge : ℕ
  pub opens_bridge : Bool
  pub makes_interface : Bool
  pub makes_tokenizer : Bool
  pub stops_tasks : Bool
  pub shuts_interface : Bool
  pub shuts_tokenizer : Bool

pub data Failure : Type 0 where
  call_raised http_500 : Failure

pub data Reply : Type 0 where
  returned : Reply
  raised : Failure → Reply

-- The next statement, where the call returned.
abbrev pub and_then :
    Reply × ModelRuntime → (ModelRuntime → Reply × ModelRuntime) → Reply × ModelRuntime
and_then (returned, r) next = next r
and_then (raised e, r) next = (raised e, r)

-- Lines 57-61.
unfoldable pub load_tokenizer : Outcomes → String → ModelRuntime → Reply × ModelRuntime
load_tokenizer o model_name r =
    if o.makes_tokenizer
    then (returned, record r { tokenizer = true; current_model_name = some model_name })
    else (raised call_raised, r)

unfoldable pub load_interface : Outcomes → Option ℕ → String → ModelRuntime → Reply × ModelRuntime
unfolding load_tokenizer
load_interface o bridge model_name r =
    if o.makes_interface
    then load_tokenizer o model_name
        (record r { interface = some (record { model = model_name; bridge = bridge }) })
    else (raised call_raised, r)

-- `ZMQOutputBridge(auto_find_port=True)`
abbrev pub with_bridge : Outcomes → ModelRuntime → ModelRuntime
with_bridge o r = record r {
  use_zmq = true;
  zmq_bridge = some o.new_bridge;
  open_bridges = o.new_bridge ∷ r.open_bridges;
}

unfoldable pub load_model : Outcomes → String → ModelRuntime → Reply × ModelRuntime
unfolding load_interface
load_model o model_name r =
    if o.env_use_zmq
    then (if o.opens_bridge
        then load_interface o (some o.new_bridge) model_name (with_bridge o r)
        else (raised call_raised, record r { use_zmq = true }))
    else load_interface o none model_name (record r { use_zmq = false })

-- Lines 71-74.
abbrev pub disposed : ModelRuntime → ModelRuntime
disposed r = record r {
  interface = none;
  tokenizer = false;
  zmq_bridge = none;
  current_model_name = none;
}

abbrev pub shut_tokenizer : Outcomes → Bool → ModelRuntime → Reply × ModelRuntime
shut_tokenizer o false r = (returned, disposed r)
shut_tokenizer o true r =
    if o.shuts_tokenizer then (returned, disposed r) else (raised call_raised, r)

abbrev pub shut_interface : Outcomes → Option Interface → ModelRuntime → Reply × ModelRuntime
shut_interface o none r = shut_tokenizer o r.tokenizer r
shut_interface o (some _) r =
    if o.shuts_interface then shut_tokenizer o r.tokenizer r else (raised call_raised, r)

unfoldable pub dispose_loaded_model_state : Outcomes → ModelRuntime → Reply × ModelRuntime
dispose_loaded_model_state o r = shut_interface o r.interface r

-- Lines 90-94: where `use_zmq` holds, the interface's tasks stop and its bridge is closed.
abbrev pub close_bridge : Outcomes → Option ℕ → Bool → ModelRuntime → Reply × ModelRuntime
close_bridge o none zmq r = (returned, r)
close_bridge o (some bridge) false r = (returned, r)
close_bridge o (some bridge) true r =
    if o.stops_tasks
    then (returned, record r { open_bridges = remove bridge r.open_bridges })
    else (raised call_raised, r)

-- Lines 98-110: what fails is answered with status 500.
abbrev pub as_http : Reply × ModelRuntime → Reply × ModelRuntime
as_http (returned, r) = (returned, r)
as_http (raised _, r) = (raised http_500, r)

abbrev pub load_if_none : Outcomes → String → Option Interface → ModelRuntime → Reply × ModelRuntime
load_if_none o model_name none r = as_http (load_model o model_name r)
load_if_none o model_name (some _) r = (returned, r)

abbrev pub unload : Outcomes → Interface → ModelRuntime → Reply × ModelRuntime
unload o interface r =
    and_then (close_bridge o interface.bridge r.use_zmq r) (dispose_loaded_model_state o)

-- Lines 84-96.
abbrev pub unload_other : Outcomes → String → Option Interface → ModelRuntime → Reply × ModelRuntime
unload_other o model_name none r = (returned, r)
unload_other o model_name (some interface) r =
    if r.current_model_name == some model_name then (returned, r) else unload o interface r

unfoldable pub switch_model_if_needed : Outcomes → String → ModelRuntime → Reply × ModelRuntime
unfolding load_model dispose_loaded_model_state
switch_model_if_needed o model_name r =
    and_then (unload_other o model_name r.interface r)
      (λ r'. load_if_none o model_name r'.interface r')
