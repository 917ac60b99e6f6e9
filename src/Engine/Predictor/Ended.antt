-- ===== src/Engine/Predictor/Ended.antt =====
-- The requests after the predictor's `postprocess`.
use nano_qwen3tts_vllm.Common.{
  ℕ, ◌≡◌, refl, ◌∙◌, ◌&&◌, ◌||◌, String, Bool, true, false, List, [], ◌∷◌, Option, none, some,
  if◌then◌else◌, ◌==◌, nat_eq, string_eq,
}
use nano_qwen3tts_vllm.Common.Dict.{Dict, lookup, lookup-erase}
use nano_qwen3tts_vllm.Engine.Effects.{ok, Returns}
use nano_qwen3tts_vllm.Engine.Sequence.{Sequence, is_finished}
use nano_qwen3tts_vllm.Engine.Scheduler.{Scheduler, seq_at, postprocess}
use nano_qwen3tts_vllm.Engine.Talker.{RequestScheduler, forget}
use nano_qwen3tts_vllm.Engine.Predictor.{forget_if, forget_finished, predictor_postprocess}

-- Whether a sequence has ended and is of the request, for one and for some of a list.
abbrev pub of_request : String → Option String → Bool
of_request request_id none = false
of_request request_id (some r) = request_id == r

abbrev pub has_ended : String → Option Sequence → Bool
has_ended request_id none = false
has_ended request_id (some q) = is_finished q && of_request request_id q.request_id

unfoldable pub any_ended : String → Dict ℕ Sequence → List ℕ → Bool
any_ended request_id seqs [] = false
any_ended request_id seqs (id ∷ ids) =
    has_ended request_id (lookup id seqs) || any_ended request_id seqs ids

abbrev pub AreStored : Dict ℕ Sequence → List ℕ → Type 0
AreStored seqs [] = Unit
AreStored seqs (id ∷ ids) = ((q : Sequence) × (lookup id seqs ≡ some q)) × AreStored seqs ids

-- The scheduler stays, and of the requests those go that have an ended sequence.
abbrev pub IsForgotten : RequestScheduler → List ℕ → RequestScheduler → Type 0
IsForgotten s ids s' =
    (s'.base ≡ s.base)
    × ((request_id : String)
        → lookup request_id s'.request_id_to_seq ≡ (
            if any_ended request_id s.base.seqs ids
            then none
            else lookup request_id s.request_id_to_seq))

lookup-forget :
    (request_id : String) (r : Option String) (requests : Dict String ℕ)
    → lookup request_id (forget r requests)
      ≡ (if of_request request_id r then none else lookup request_id requests)
lookup-forget request_id none requests = refl
lookup-forget request_id (some r) requests = lookup-erase request_id r requests

lookup-forget_if :
    (request_id : String) (ended : Bool) (r : Option String) (requests : Dict String ℕ)
    → lookup request_id (forget_if ended r requests)
      ≡ (if ended && of_request request_id r then none else lookup request_id requests)
lookup-forget_if request_id false r requests = refl
lookup-forget_if request_id true r requests = lookup-forget request_id r requests

forget_finished-IsForgotten :
    (ids : List ℕ) (s : RequestScheduler)
    → AreStored s.base.seqs ids
    → Returns (IsForgotten s ids) (forget_finished ids s)
unfolding forget_finished any_ended
forget_finished-IsForgotten [] s stored = (s, refl, (refl, λ request_id. refl))
forget_finished-IsForgotten (id ∷ ids) s ((q, here), stored) =
    let requests : Dict String ℕ = forget_if (is_finished q) q.request_id s.request_id_to_seq in
    let (s', r, (same, rest)) =
      forget_finished-IsForgotten ids (record s { request_id_to_seq = requests }) stored in
    (
      s',
      rw (here, seq_at) r,
      (
        same,
        λ request_id.
            rest request_id
            ∙ rw here (
                merged (any_ended request_id s.base.seqs ids)
                  (is_finished q && of_request request_id q.request_id)
                  (lookup request_id s.request_id_to_seq) (lookup request_id requests)
                  (lookup-forget_if request_id (is_finished q) q.request_id s.request_id_to_seq)),
      ),
    )
  where
    merged :
        (b c : Bool) (o o' : Option ℕ)
        → o' ≡ (if c then none else o)
        → (if b then none else o') ≡ (if c || b then none else o)
    merged true true o o' e = refl
    merged true false o o' e = refl
    merged false true o o' e = e
    merged false false o o' e = e

-- Where the base's `postprocess` returns, and its scheduler has the sequences of the list, the predictor's
-- returns too: with that scheduler, and with the same requests but for those that have an ended sequence in
-- the list, which it forgets.
pub predictor_postprocess-IsForgotten :
    (ids tokens : List ℕ) (s : RequestScheduler) (base : Scheduler)
    → postprocess ids tokens s.base ≡ ok base
    → AreStored base.seqs ids
    → Returns (IsForgotten (record s { base = base }) ids) (predictor_postprocess ids tokens s)
unfolding predictor_postprocess
predictor_postprocess-IsForgotten ids tokens s base e stored =
    rw e (forget_finished-IsForgotten ids (record s { base = base }) stored)
