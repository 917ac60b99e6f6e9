-- ===== src/Runtime/Switched.antt =====
-- What a change of the model leaves, nano_qwen3tts_vllm/model_runtime.py lines 83-112.
use mathlib.Core.Path.{subst}
use mathlib.Core.Option.{some-injective, some-ne-none}
use nano_qwen3tts_vllm.Common.{
  ◌≡◌, refl, sym, ◌∙◌, ◌⊎◌, inl, inr, String, Bool, true, false, Option, none, some, ◌==◌,
  if◌then◌else◌, ℕ, string_eq, option_eq, ==_iff,
}
use nano_qwen3tts_vllm.Runtime.{
  Interface, ModelRuntime, Outcomes, Reply, returned, raised, and_then, load_tokenizer,
  load_interface, with_bridge, load_model, shut_tokenizer, shut_interface,
  dispose_loaded_model_state, close_bridge, as_http, load_if_none, unload, unload_other,
  switch_model_if_needed,
}

-- The model, its interface and the tokenizer are there.
abbrev pub IsLoaded : String → ModelRuntime → Type 0
IsLoaded m r =
    (r.current_model_name ≡ some m)
    × (r.tokenizer ≡ true)
    × ((i : Interface) × (r.interface ≡ some i) × (i.model ≡ m))

-- A name of a model stands only beside that model.
abbrev pub IsValid : ModelRuntime → Type 0
IsValid r = (r.current_model_name ≡ none) ⊎ ((m : String) × IsLoaded m r)

-- Some outside call raised.
pub data Raises (o : Outcomes) : Type 0 where
  bridge_raised : o.opens_bridge ≡ false → Raises o
  interface_raised : o.makes_interface ≡ false → Raises o
  tokenizer_raised : o.makes_tokenizer ≡ false → Raises o
  stop_raised : o.stops_tasks ≡ false → Raises o
  shut_interface_raised : o.shuts_interface ≡ false → Raises o
  shut_tokenizer_raised : o.shuts_tokenizer ≡ false → Raises o

-- A call that returns leaves `Q`; one that raises leaves a valid runtime, and an outside call raised.
abbrev pub Leaves : Outcomes → (ModelRuntime → Type 0) → Reply × ModelRuntime → Type 0
Leaves o Q (returned, r) = Q r
Leaves o Q (raised e, r) = IsValid r × Raises o

Leaves-and_then :
    (o : Outcomes) (P Q : ModelRuntime → Type 0) (call : Reply × ModelRuntime)
    (next : ModelRuntime → Reply × ModelRuntime)
    → Leaves o P call
    → ((r : ModelRuntime) → P r → Leaves o Q (next r))
    → Leaves o Q (and_then call next)
Leaves-and_then o P Q (returned, r) next h step = step r h
Leaves-and_then o P Q (raised e, r) next h step = h

Leaves-if :
    (o : Outcomes) (Q : ModelRuntime → Type 0) (b : Bool) (x y : Reply × ModelRuntime)
    → (b ≡ true → Leaves o Q x)
    → (b ≡ false → Leaves o Q y)
    → Leaves o Q (if b then x else y)
Leaves-if o Q true x y hx hy = hx refl
Leaves-if o Q false x y hx hy = hy refl

Leaves-mono :
    (o : Outcomes) (P Q : ModelRuntime → Type 0) (call : Reply × ModelRuntime)
    → Leaves o P call
    → ((r : ModelRuntime) → P r → Q r)
    → Leaves o Q call
Leaves-mono o P Q (returned, r) h weaken = weaken r h
Leaves-mono o P Q (raised e, r) h weaken = h

-- The interface is made on a runtime without a name: a failure leaves it without one.
load_interface-Leaves :
    (o : Outcomes) (bridge : Option ℕ) (m : String) (r : ModelRuntime)
    → r.current_model_name ≡ none
    → Leaves o (IsLoaded m) (load_interface o bridge m r)
unfolding load_interface load_tokenizer
load_interface-Leaves o bridge m r unnamed =
    Leaves-if o (IsLoaded m) o.makes_interface _ _
      (λ _.
        Leaves-if o (IsLoaded m) o.makes_tokenizer _ _ (λ _. (refl, refl, (_, refl, refl)))
          (λ fails. (inl unnamed, tokenizer_raised fails)))
      (λ fails. (inl unnamed, interface_raised fails))

load_model-Leaves :
    (o : Outcomes) (m : String) (r : ModelRuntime)
    → r.current_model_name ≡ none
    → Leaves o (IsLoaded m) (load_model o m r)
unfolding load_model
load_model-Leaves o m r unnamed =
    Leaves-if o (IsLoaded m) o.env_use_zmq _ _
      (λ _.
        Leaves-if o (IsLoaded m) o.opens_bridge _ _
          (λ _. load_interface-Leaves o (some o.new_bridge) m (with_bridge o r) unnamed)
          (λ fails. (inl unnamed, bridge_raised fails)))
      (λ _. load_interface-Leaves o none m (record r { use_zmq = false }) unnamed)

as_http-Leaves :
    (o : Outcomes) (Q : ModelRuntime → Type 0) (call : Reply × ModelRuntime)
    → Leaves o Q call
    → Leaves o Q (as_http call)
as_http-Leaves o Q (returned, r) h = h
as_http-Leaves o Q (raised e, r) h = h

-- The runtime has no model.
abbrev IsEmpty : ModelRuntime → Type 0
IsEmpty r = (r.interface ≡ none) × (r.current_model_name ≡ none)

shut_tokenizer-Leaves :
    (o : Outcomes) (tokenizer : Bool) (r : ModelRuntime)
    → IsValid r
    → Leaves o IsEmpty (shut_tokenizer o tokenizer r)
shut_tokenizer-Leaves o false r valid = (refl, refl)
shut_tokenizer-Leaves o true r valid =
    Leaves-if o IsEmpty o.shuts_tokenizer _ _ (λ _. (refl, refl))
      (λ fails. (valid, shut_tokenizer_raised fails))

shut_interface-Leaves :
    (o : Outcomes) (i : Option Interface) (r : ModelRuntime)
    → IsValid r
    → Leaves o IsEmpty (shut_interface o i r)
shut_interface-Leaves o none r valid = shut_tokenizer-Leaves o r.tokenizer r valid
shut_interface-Leaves o (some i) r valid =
    Leaves-if o IsEmpty o.shuts_interface _ _ (λ _. shut_tokenizer-Leaves o r.tokenizer r valid)
      (λ fails. (valid, shut_interface_raised fails))

dispose-Leaves :
    (o : Outcomes) (r : ModelRuntime)
    → IsValid r
    → Leaves o IsEmpty (dispose_loaded_model_state o r)
unfolding dispose_loaded_model_state
dispose-Leaves o r valid = shut_interface-Leaves o r.interface r valid

close_bridge-Leaves :
    (o : Outcomes) (bridge : Option ℕ) (zmq : Bool) (r : ModelRuntime)
    → IsValid r
    → Leaves o IsValid (close_bridge o bridge zmq r)
close_bridge-Leaves o none zmq r valid = valid
close_bridge-Leaves o (some b) false r valid = valid
close_bridge-Leaves o (some b) true r valid =
    Leaves-if o IsValid o.stops_tasks _ _ (λ _. valid) (λ fails. (valid, stop_raised fails))

unload-Leaves :
    (o : Outcomes) (i : Interface) (r : ModelRuntime) → IsValid r → Leaves o IsEmpty (unload o i r)
unload-Leaves o i r valid =
    Leaves-and_then o IsValid IsEmpty _ (dispose_loaded_model_state o)
      (close_bridge-Leaves o i.bridge r.use_zmq r valid) (dispose-Leaves o)

-- The model to switch to is there, or none is.
abbrev IsReady : String → ModelRuntime → Type 0
IsReady m r = IsLoaded m r ⊎ IsEmpty r

load_if_none-Leaves :
    (o : Outcomes) (m : String) (r : ModelRuntime)
    → IsReady m r
    → Leaves o (IsLoaded m) (load_if_none o m r.interface r)
load_if_none-Leaves o m r (inl loaded) =
    subst (λ i. Leaves o (IsLoaded m) (load_if_none o m i r)) (sym loaded.2.1) loaded
load_if_none-Leaves o m r (inr (at, unnamed)) =
    subst (λ i. Leaves o (IsLoaded m) (load_if_none o m i r)) (sym at)
      (as_http-Leaves o (IsLoaded m) (load_model o m r) (load_model-Leaves o m r unnamed))

-- The runtime is empty or has the model, in each case of what was found.
unload_other-Leaves :
    (o : Outcomes) (m : String) (r : ModelRuntime) (found : Option Interface)
    → r.interface ≡ found
    → IsValid r
    → Leaves o (IsReady m) (unload_other o m found r)
unload_other-Leaves o m r none at (inl unnamed) = inr (at, unnamed)
unload_other-Leaves o m r none at (inr (n, loaded)) = absurd (some-ne-none _ (sym loaded.2.1 ∙ at))
unload_other-Leaves o m r (some i) at valid =
    Leaves-if o (IsReady m) (r.current_model_name == some m) _ _
      (λ same. inl (loaded_as valid ((==_iff _ _).0 same)))
      (λ _. Leaves-mono o IsEmpty (IsReady m) _ (unload-Leaves o i r valid) (λ _ empty. inr empty))
  where
    loaded_as : IsValid r → r.current_model_name ≡ some m → IsLoaded m r
    loaded_as (inl unnamed) named = absurd (some-ne-none _ (sym named ∙ unnamed))
    loaded_as (inr (n, loaded)) named =
        subst (λ k. IsLoaded k r) (some-injective _ _ (sym loaded.0 ∙ named)) loaded

-- A change of the model on a valid runtime, whatever the outside calls do: where it returns, the
-- model asked for is loaded, with its tokenizer; where it raises, an outside call raised and the runtime
-- is valid still.
pub switch_model-Switches :
    (o : Outcomes) (model_name : String) (r : ModelRuntime)
    → IsValid r
    → Leaves o (IsLoaded model_name) (switch_model_if_needed o model_name r)
unfolding switch_model_if_needed
switch_model-Switches o m r valid =
    Leaves-and_then o (IsReady m) (IsLoaded m) _ (λ r'. load_if_none o m r'.interface r')
      (unload_other-Leaves o m r r.interface refl valid) (load_if_none-Leaves o m)
