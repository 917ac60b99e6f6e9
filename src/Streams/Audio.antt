-- ===== src/Streams/Audio.antt =====
-- The audio of a stream, nano_qwen3tts_vllm/stream_routes.py lines 215-309: the producer's items and what
-- the consumer makes of them. `decode_batch`, which the route's class
-- is given, is a parameter that may raise; samples are of any type.
pub mod Decoding
pub mod Pipe
pub mod Order
mod Tests
use nano_qwen3tts_vllm.Common.{
  ℕ, ◌+◌, ◌-◌, ◌*◌, ◌/◌, ◌%◌, Bool, true, false, List, [], ◌∷◌, ◌++◌, Option, none, some, length,
  drop, ltb, if◌then◌else◌, ◌==◌, nat_eq,
}
use nano_qwen3tts_vllm.Engine.Effects.{Result, ok, raise, zero_division_error, ◌>>=◌}

-- `len(audio_codes) % 4 == 0`
abbrev pub is_whole {ℓ} : {Code : Type ℓ} → List Code → Bool
is_whole audio_codes = length audio_codes % 4 == 0

-- Lines 261-262: what is left, at the end of the chunks. Where the generator raises, it is dropped.
abbrev pub last_item {ℓ} : {Code : Type ℓ} → Bool → List Code → List (List Code)
last_item true audio_codes = []
last_item false audio_codes = if is_whole audio_codes then [] else audio_codes ∷ []

-- The items that `producer` puts before its `None`, lines 228-262, for the chunks that the generator
-- gives before it ends or, with `failing`, raises. A cancelled stream ends the loop too: its chunks are
-- those taken before the event was seen. Each item has all codes so far.
unfoldable pub produce {ℓ} : {Code : Type ℓ} → Bool → List Code → List Code → List (List Code)
produce failing audio_codes [] = last_item failing audio_codes
produce failing audio_codes (chunk ∷ chunks) =
    let rest = produce failing (audio_codes ++ chunk ∷ []) chunks in
    if is_whole (audio_codes ++ chunk ∷ []) then (audio_codes ++ chunk ∷ []) ∷ rest else rest

abbrev pub max_window : ℕ
max_window = 48

-- `codes_to_decode`
abbrev pub codes_to_decode {ℓ} : {Code : Type ℓ} → List Code → List Code
codes_to_decode item =
    if ltb max_window (length item) then drop (length item - max_window) item else item

-- `samples[-n:]` for a positive n.
abbrev pub take_last {ℓ} : {A : Type ℓ} → ℕ → List A → List A
take_last n xs = drop (length xs - n) xs

-- Lines 290-295: the samples that are yielded, and the number of chunks that are done. A count below
-- zero yields as little as zero does.
abbrev pub yield_new {ℓ} : {Sample : Type ℓ} → ℕ → ℕ → ℕ → List Sample → List Sample × ℕ
yield_new new_samples_count num_total_chunks prev_len_chunks pcm16 =
    if ltb 0 new_samples_count
    then (take_last new_samples_count pcm16, num_total_chunks)
    else ([], prev_len_chunks)

module _ {ℓ κ} {Code : Type ℓ} {Sample : Type κ}
    (decode_batch : List Code → Result (List Sample)) where
  -- Lines 281-295, for one item.
  unfoldable pub decode_item : ℕ → List Code → Result (List Sample × ℕ)
  decode_item prev_len_chunks item =
      let codes = codes_to_decode item in
      decode_batch codes >>= λ pcm16.
      if length codes == 0
      then raise zero_division_error
      else ok (
          yield_new ((length item - prev_len_chunks) * (length pcm16 / length codes)) (length item)
            prev_len_chunks pcm16)

  -- The consumer's loop: the samples of all items, in the order of the yields.
  unfoldable pub consume : ℕ → List (List Code) → Result (List Sample)
  consume prev_len_chunks [] = ok []
  consume prev_len_chunks (item ∷ items) = do
    (samples, now_done) ← decode_item prev_len_chunks item
    rest ← consume now_done items
    ok (samples ++ rest)
