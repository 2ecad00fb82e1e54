-- ===== src/Sources/Calldata/EvmScript/RoundTrip.antt =====
-- decodeEvmScript takes back what an encoder of the wire format writes.
use kvorum.Base.{
  ◌==◌, le→not-ltb, length, take, drop, All, length-append, All-append, take-append, drop-append, ℕ,
  zero, suc, ◌+◌, ◌*◌, ◌%◌, ◌≤◌, ◌≡◌, refl, ap, ◌∙◌, true, List, [], ◌∷◌, ◌++◌, map, append_assoc,
  arith,
}
use kvorum.Sources.Calldata.Hex.{
  IsByte, to_hex, same_bytes, from_hex-to_hex, to_hex-hex, to_lower_case-to_hex, length-to_hex,
}
use kvorum.Sources.Calldata.EvmScript.{
  decoded, push_call, spec_id, read_uint32_be, address_of, calldata_length, body, call_at,
  decode_calls, decode_bytes, raw_of, decode_raw, decode_evm_script,
}
use kvorum.Sources.Calldata.EvmScript.Frames.{
  uint32_be, frame_bytes, frames_bytes, frame_call, encode_evm_script, read_uint32_be-uint32_be,
  Frame, IsFrame,
}

-- One round on the bytes of a call, whatever stands behind them.
decode_calls_step :
    (fuel : ℕ) (src : List ℕ)
    → 24 ≤ length src
    → calldata_length src ≤ length (body src)
    → decode_calls (suc fuel) src
      ≡ push_call (call_at src) (decode_calls fuel (drop (calldata_length src) (body src)))
unfolding decode_calls
decode_calls_step fuel [] h k = ground arith
decode_calls_step fuel (b ∷ bs) h k =
    rw
      (
        le→not-ltb 24 (length (b ∷ bs)) h,
        le→not-ltb (calldata_length (b ∷ bs)) (length (body (b ∷ bs))) k,
      )
      refl

module _ (f : Frame) (ok : IsFrame f) (rest : List ℕ) where
  behind_address :
      drop 20 (frame_bytes f ++ rest) ≡ uint32_be (length f.payload) ++ (f.payload ++ rest)
  behind_address =
      ap (drop 20) (append_assoc f.target (uint32_be (length f.payload) ++ f.payload) rest)
      ∙ drop-append f.target _ 20 ok.target_length

  body-frame : body (frame_bytes f ++ rest) ≡ f.payload ++ rest
  unfolding body
  body-frame = ap (drop 4) behind_address

  calldata_length-frame : calldata_length (frame_bytes f ++ rest) ≡ length f.payload
  unfolding calldata_length
  calldata_length-frame =
      ap read_uint32_be behind_address
      ∙ read_uint32_be-uint32_be (length f.payload) (f.payload ++ rest) ok.payload_length

  take-frame : take 20 (frame_bytes f ++ rest) ≡ f.target
  take-frame =
      ap (take 20) (append_assoc f.target (uint32_be (length f.payload) ++ f.payload) rest)
      ∙ take-append f.target _ 20 ok.target_length

  call_at-frame : call_at (frame_bytes f ++ rest) ≡ frame_call f
  unfolding call_at address_of
  call_at-frame =
      rw
        (
          calldata_length-frame,
          body-frame,
          take-frame,
          take-append f.payload rest (length f.payload) refl,
          to_lower_case-to_hex f.target ok.target_bytes,
        )
        refl

  length-frame : length (frame_bytes f ++ rest) ≡ 24 + length f.payload + length rest
  length-frame = omega (
    arith,
    length-append (frame_bytes f) rest,
    length-append f.target (uint32_be (length f.payload) ++ f.payload),
    ok.target_length,
  )

  decode_calls-frame :
      (fuel : ℕ)
      → decode_calls (suc fuel) (frame_bytes f ++ rest)
        ≡ push_call (frame_call f) (decode_calls fuel rest)
  decode_calls-frame fuel =
      decode_calls_step fuel (frame_bytes f ++ rest) (omega (arith, length-frame))
        (omega (arith, calldata_length-frame, ap length body-frame, length-append f.payload rest))
      ∙ rw
          (
            call_at-frame,
            calldata_length-frame,
            body-frame,
            drop-append f.payload rest (length f.payload) refl,
          )
          refl

decode_calls-frames :
    (fuel : ℕ) (fs : List Frame)
    → All IsFrame fs
    → length fs ≤ fuel
    → decode_calls fuel (frames_bytes fs) ≡ decoded (map frame_call fs)
unfolding frames_bytes decode_calls push_call
decode_calls-frames fuel [] h k = refl
decode_calls-frames zero (f ∷ fs) h k = ground arith
decode_calls-frames (suc fuel) (f ∷ fs) h k =
    decode_calls-frame f h.0 (frames_bytes fs) fuel
    ∙ ap (push_call (frame_call f)) (decode_calls-frames fuel fs h.1 (omega arith))

frames_bytes-IsByte : (fs : List Frame) → All IsFrame fs → All IsByte (frames_bytes fs)
unfolding frames_bytes
frames_bytes-IsByte [] h = tt
frames_bytes-IsByte (f ∷ fs) h =
    All-append IsByte (frame_bytes f) (frames_bytes fs)
      (All-append IsByte f.target _ h.0.target_bytes
        (uint32_be-IsByte (length f.payload) f.payload h.0.payload_bytes))
      (frames_bytes-IsByte fs h.1)
  where
    uint32_be-IsByte : (n : ℕ) (bs : List ℕ) → All IsByte bs → All IsByte (uint32_be n ++ bs)
    uint32_be-IsByte n bs h = (omega arith, (omega arith, (omega arith, (omega arith, h))))

length-frames-le : (fs : List Frame) → length fs ≤ length (frames_bytes fs)
unfolding frames_bytes
length-frames-le [] = omega arith
length-frames-le (f ∷ fs) = omega (
  arith,
  length-frames-le fs,
  length-append (frame_bytes f) (frames_bytes fs),
  length-append f.target (uint32_be (length f.payload) ++ f.payload),
)

decode_bytes_step :
    (bytes : List ℕ)
    → 4 ≤ length bytes
    → same_bytes (take 4 bytes) spec_id ≡ true
    → decode_bytes bytes ≡ decode_calls (length bytes) (drop 4 bytes)
unfolding decode_bytes
decode_bytes_step bytes h k = rw (le→not-ltb 4 (length bytes) h, k) refl

pub decode_bytes-frames :
    (fs : List Frame)
    → All IsFrame fs
    → decode_bytes (spec_id ++ frames_bytes fs) ≡ decoded (map frame_call fs)
unfolding same_bytes
decode_bytes-frames fs h =
    decode_bytes_step (spec_id ++ frames_bytes fs) (omega arith) refl
    ∙ decode_calls-frames (length (spec_id ++ frames_bytes fs)) fs h
        (omega (arith, length-frames-le fs))

even_length : (n : ℕ) → (2 * n % 2 == 0) ≡ true
even_length n = ground arith

decode_raw-to_hex :
    (b : ℕ) (bs : List ℕ)
    → All IsByte (b ∷ bs)
    → decode_raw (to_hex (b ∷ bs)) ≡ decode_bytes (b ∷ bs)
unfolding decode_raw to_hex
decode_raw-to_hex b bs h =
    rw (to_hex-hex (b ∷ bs) h, from_hex-to_hex (b ∷ bs) h, length-to_hex (b ∷ bs))
      (rw (even_length (suc (length bs))) refl)

-- The script that lists some calls, each with an address of twenty bytes and call data whose length
-- has 32 bits, decodes to these calls in their order.
pub decode_evm_script-encode :
    (fs : List Frame)
    → All IsFrame fs
    → decode_evm_script (encode_evm_script fs) ≡ decoded (map frame_call fs)
unfolding decode_evm_script encode_evm_script raw_of
decode_evm_script-encode fs h =
    decode_raw-to_hex 0 (0 ∷ 0 ∷ 1 ∷ frames_bytes fs)
      (omega arith, (omega arith, (omega arith, (omega arith, frames_bytes-IsByte fs h))))
    ∙ decode_bytes-frames fs h
