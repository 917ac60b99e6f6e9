-- ===== src/Voices/Picking.antt =====
-- The choice of a voice for a request, `resolve_voice_record_for_user` of nano_qwen3tts_vllm/voice_store.py.
use nano_qwen3tts_vllm.Common.{
  ℕ, ◌%◌, String, Bool, ◌||◌, List, [], ◌∷◌, Option, none, some, length, get_elem?, is_empty, strip,
  if◌then◌else◌, ◌==◌, string_eq, nat_eq, contains,
}
use nano_qwen3tts_vllm.Voices.Rows.{
  Voice, State, is_usable_voice, filter, active_voices_for_user, filter_by_enabled, find_by_name,
}

-- Lines 217-219: the enabled voices, or all active ones where none is enabled, if they are usable.
abbrev pub or_all : List Voice → List Voice → List Voice
or_all [] all = all
or_all (v ∷ vs) all = v ∷ vs

unfoldable pub usable_pool : (String → Bool) → State → Option ℕ → List Voice
usable_pool exists s user_id =
    let active = active_voices_for_user s user_id in
    filter (is_usable_voice exists) (or_all (filter_by_enabled s user_id active) active)

abbrev pub default_aliases : List String
default_aliases = "default" ∷ "default_voice" ∷ []

-- Lines 232-235.
abbrev pub or_default : (String → String) → Voice → List Voice → Voice
or_default lower first pool = elim (find_by_name lower "default" pool) [ none ↦ first | some v ↦ v ]

-- Lines 227-230: the voice that is named, where the name is not one of the default's.
abbrev pub named_voice : (String → String) → String → List Voice → Option Voice
named_voice lower requested pool =
    if is_empty requested || contains default_aliases (lower requested)
    then none
    else find_by_name lower requested pool

abbrev pub or_voice : Option Voice → Voice → Voice
or_voice none other = other
or_voice (some v) other = v

-- `random.choice`, for the number `draw` that its generator gives.
abbrev pub random_choice : ℕ → Voice → List Voice → Voice
random_choice draw first rest =
    or_voice (get_elem? (first ∷ rest) (draw % length (first ∷ rest))) first

-- Lines 223-235, at the usable voices.
abbrev pub resolve_in : (String → String) → ℕ → String → List Voice → Option Voice
resolve_in lower draw requested [] = none
resolve_in lower draw requested (first ∷ rest) =
    if lower requested == "random"
    then some (random_choice draw first rest)
    else some (
        or_voice (named_voice lower requested (first ∷ rest))
          (or_default lower first (first ∷ rest)))

-- `resolve_voice_record_for_user`; without active voices the pool is empty too.
unfoldable pub resolve_voice_record_for_user :
    (String → String) → (String → Bool) → ℕ → State → Option ℕ → String → Option Voice
resolve_voice_record_for_user lower exists draw s user_id requested_voice =
    resolve_in lower draw (strip requested_voice) (usable_pool exists s user_id)
