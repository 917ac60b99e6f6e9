-- ===== src/Streams/Audio/Decoding.antt =====
-- What the consumer decodes for the items of the producer.
use nano_qwen3tts_vllm.Common.{
  ℕ, ◌-◌, ◌*◌, ◌/◌, ◌%◌, ◌≤◌, ◌<◌, ◌≡◌, ◌⊎◌, refl, sym, ap, ◌∙◌, inl, inr, true, false, List, [],
  ◌∷◌, ◌++◌, length, take, drop, length-append, take_drop, drop-append, length-nil, length-drop,
  ltb, ◌==◌, nat_eq, arith, Bool-cases,
}
use mathlib.Core.List.{append-nil, append_assoc}
use native.Mathlib.Nat.{mul-div_cancel, mul-pos}
use nano_qwen3tts_vllm.Engine.Effects.{Result, Error, ok, raise}
use nano_qwen3tts_vllm.Streams.Audio.{
  is_whole, produce, max_window, codes_to_decode, take_last, decode_item,
}

module _ {ℓ κ} {Code : Type ℓ} {Sample : Type κ} (decode : List Code → Result (List Sample)) where
  -- What comes of an item with the codes `new` behind those that are done, of which `near` are decoded
  -- again. Where the decoder raises, so does the round; where it gives the same positive number of samples
  -- for each code, exactly the samples of the new codes are yielded.
  abbrev pub Yields : List Code → List Code → List Code → List Code → Type κ
  Yields done near new item =
      ((e : Error)
        → decode (near ++ new) ≡ raise e
        → decode_item decode (length done) item ≡ raise e)
      × ((samples : List Sample) (spc : ℕ)
          → decode (near ++ new) ≡ ok samples
          → 0 < spc
          → length samples ≡ length (near ++ new) * spc
          → decode_item decode (length done) item
            ≡ ok (drop (length near * spc) samples, length item))

  -- The items after the codes `done`: each has from one to four new codes behind all before, and the
  -- window that is decoded for it ends with these and has all codes or the last 48; the new codes of all
  -- items are, in their order, the rest of `all`.
  pub data Windows (all : List Code) : List Code → List (List Code) → Type (ℓ ⊔ κ) where
    all_done : {done : List Code} → done ≡ all → Windows all done []
    one_more :
        {done : List Code} (far near new item : List Code) (items : List (List Code))
        → 0 < length new
        → length new ≤ 4
        → item ≡ done ++ new
        → done ≡ far ++ near
        → codes_to_decode item ≡ near ++ new
        → (far ≡ []) ⊎ (length (near ++ new) ≡ 48)
        → Yields done near new item
        → Windows all item items
        → Windows all done (item ∷ items)

  -- The last samples of a window are those of its new codes.
  last_samples :
      (near new : List Code) (samples : List Sample) (spc : ℕ)
      → length samples ≡ length (near ++ new) * spc
      → take_last (length new * spc) samples ≡ drop (length near * spc) samples
  last_samples near new samples spc sized = ap (λ n. drop n samples) count
    where
      count : length samples - length new * spc ≡ length near * spc
      count = omega (arith, sized, ap (λ n. n * spc) (length-append near new))

  samples_per_code :
      (n spc : ℕ) (samples : List Sample)
      → 0 < n
      → length samples ≡ n * spc
      → length samples / n ≡ spc
  samples_per_code n spc samples filled sized = ap (λ k. k / n) commuted ∙ mul-div_cancel spc filled
    where
      commuted : length samples ≡ spc * n
      commuted = omega (arith, sized)

  window-Yields :
      (done near new item : List Code)
      → 0 < length new
      → item ≡ done ++ new
      → codes_to_decode item ≡ near ++ new
      → Yields done near new item
  unfolding decode_item
  window-Yields done near new item filled e window = (
    λ error raises. rw window (rw raises refl),
    λ samples spc gives positive sized. rw window (
        rw gives (
          rw some_codes (
            rw (new_samples samples spc sized) (
              rw (some_samples spc positive)
                (ap (λ zs. ok (zs, length item)) (last_samples near new samples spc sized)))))),
  )
    where
      codes_filled : 0 < length (near ++ new)
      codes_filled = omega (arith, filled, length-append near new)

      some_codes : length (near ++ new) == 0 ≡ false
      some_codes = ground (arith, codes_filled)

      new_samples :
          (samples : List Sample) (spc : ℕ)
          → length samples ≡ length (near ++ new) * spc
          → (length item - length done) * (length samples / length (near ++ new)) ≡ length new * spc
      new_samples samples spc sized =
          ap (λ n. (length item - length done) * n)
            (samples_per_code (length (near ++ new)) spc samples codes_filled sized)
          ∙ ap (λ n. n * spc) (omega (arith, ap length e, length-append done new))

      some_samples : (spc : ℕ) → 0 < spc → ltb 0 (length new * spc) ≡ true
      some_samples spc positive = ground (arith, mul-pos filled positive)

  next_item :
      (all done new item : List Code) (items : List (List Code))
      → item ≡ done ++ new
      → 0 < length new
      → length new ≤ 4
      → Windows all item items
      → Windows all done (item ∷ items)
  next_item all done new item items e filled few rest =
      elim (Bool-cases (ltb max_window (length item))) [
        | inr short ↦
            let window : codes_to_decode item ≡ done ++ new = rw short e in
            one_more [] done new item items filled few e refl window (inl refl)
              (window-Yields done done new item filled e window) rest
        | inl long ↦
            let window : codes_to_decode item ≡ drop cut done ++ new =
              rw long (ap (drop cut) e ∙ drop-append cut done new (inside long)) in
            one_more (take cut done) (drop cut done) new item items filled few e
              (sym (take_drop cut done)) window (inr (wide long))
              (window-Yields done (drop cut done) new item filled e window) rest
      ]
    where
      cut : ℕ
      cut = length item - max_window

      inside : ltb max_window (length item) ≡ true → cut ≤ length done
      inside long = ground (arith, ap length e, length-append done new)

      wide : ltb max_window (length item) ≡ true → length (drop cut done ++ new) ≡ 48
      wide long = ground (
        arith,
        ap length e,
        length-append done new,
        length-append (drop cut done) new,
        length-drop cut done,
      )

  -- The loop of the producer, with `pending` the codes since the last item.
  produce-Windows :
      (chunks done pending acc all : List Code)
      → acc ≡ done ++ pending
      → all ≡ acc ++ chunks
      → length done % 4 ≡ 0
      → length pending < 4
      → Windows all done (produce false acc chunks)
  unfolding produce
  produce-Windows [] done pending acc all e e' whole few = elim (Bool-cases (is_whole acc)) [
    | inl at_item ↦ rw at_item (
        all_done (
          sym (append-nil done)
          ∙ ap (λ zs. done ++ zs) (sym (length-nil pending (none_pending at_item)))
          ∙ sym e
          ∙ sym (append-nil acc)
          ∙ sym e'))
    | inr between ↦ rw between (
        next_item all done pending acc [] e (some_pending between) (omega arith)
          (all_done (sym (append-nil acc) ∙ sym e')))
  ]
    where
      none_pending : is_whole acc ≡ true → length pending ≡ 0
      none_pending at_item = ground (arith, ap length e, length-append done pending)

      some_pending : is_whole acc ≡ false → 0 < length pending
      some_pending between = ground (arith, ap length e, length-append done pending)
  produce-Windows (c ∷ chunks) done pending acc all e e' whole few =
      elim (Bool-cases (is_whole (acc ++ c ∷ []))) [
        | inl at_item ↦ rw at_item (
            next_item all done (pending ++ c ∷ []) (acc ++ c ∷ [])
              (produce false (acc ++ c ∷ []) chunks) grown
              (omega (arith, length-append pending (c ∷ [])))
              (omega (arith, length-append pending (c ∷ [])))
              (produce-Windows chunks (acc ++ c ∷ []) [] (acc ++ c ∷ []) all
                (sym (append-nil (acc ++ c ∷ []))) rest (ground arith) (omega arith)))
        | inr between ↦ rw between (
            produce-Windows chunks done (pending ++ c ∷ []) (acc ++ c ∷ []) all grown rest whole (
              ground (
                arith,
                ap length grown,
                length-append done (pending ++ c ∷ []),
                length-append pending (c ∷ []),
              )))
      ]
    where
      grown : acc ++ c ∷ [] ≡ done ++ (pending ++ c ∷ [])
      grown = ap (λ zs. zs ++ c ∷ []) e ∙ append_assoc done pending (c ∷ [])

      rest : all ≡ (acc ++ c ∷ []) ++ chunks
      rest = e' ∙ sym (append_assoc acc (c ∷ []) chunks)

  pub produce-Windows_all : (codes : List Code) → Windows codes [] (produce false [] codes)
  produce-Windows_all codes = produce-Windows codes [] [] [] codes refl refl refl (omega arith)
