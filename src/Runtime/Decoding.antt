-- ===== src/Runtime/Decoding.antt =====
-- `decode_batch` of nano_qwen3tts_vllm/model_runtime.py, which the stream routes are given. Parameters are
-- `decode`, for the tokenizer's decoder with the samples and their rate; `interpolate`, for `np.interp` at
-- that many even points of a waveform; and `to_pcm16`, for the clipping and scaling of one sample.
use nano_qwen3tts_vllm.Common.{
  ℕ, ◌+◌, ◌*◌, ◌/◌, ◌%◌, Bool, List, map, length, ltb, if◌then◌else◌, ◌==◌, nat_eq,
}
use nano_qwen3tts_vllm.Engine.Effects.{Result, ok, raise, runtime_error}

-- `round(n / d)` of Python: the nearest number, and of two the even one.
unfoldable pub round_div : ℕ → ℕ → ℕ
round_div n d =
    if ltb (2 * (n % d)) d
    then n / d
    else (if ltb d (2 * (n % d)) then n / d + 1 else n / d + (n / d) % 2)

abbrev pub target_sample_rate : ℕ
target_sample_rate = 24000

module _ {ℓ κ} {Sample : Type ℓ} {Code : Type κ} (interpolate : ℕ → List Sample → List Sample)
    (decode : List Code → List Sample × ℕ) where
  -- Line 136: no sample at the new rate.
  abbrev pub resampled : ℕ → List Sample → List Sample
  resampled n_new wav = if n_new == 0 then wav else interpolate n_new wav

  -- `_resample_to_24k`, for a rate that is not 0.
  unfoldable pub resample_to_24k : List Sample → ℕ → List Sample
  resample_to_24k wav orig_sr =
      if orig_sr == target_sample_rate
      then wav
      else resampled (round_div (length wav * target_sample_rate) orig_sr) wav

  -- The samples of a batch, for a tokenizer that is loaded or not.
  unfoldable pub decode_batch {μ} :
      {Pcm : Type μ} → (Sample → Pcm) → Bool → List Code → Result (List Pcm)
  unfolding resample_to_24k
  decode_batch to_pcm16 loaded codes =
      let (wav, sample_rate) = decode codes in
      if loaded then ok (map to_pcm16 (resample_to_24k wav sample_rate)) else raise runtime_error
