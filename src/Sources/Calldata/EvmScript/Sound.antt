-- ===== src/Sources/Calldata/EvmScript/Sound.antt =====
-- What each answer of decodeEvmScript says of the script.
use kvorum.Base.{
  ltb, ◌==◌, if◌then◌else◌, Bool-cases, clash, length, take, drop, All, append-take-drop,
  length-drop, ℕ, zero, suc, ◌+◌, ◌%◌, ◌≤◌, ◌≡◌, refl, sym, ap, ◌∙◌, subst, ◌⊎◌, inl, inr, Bool,
  true, false, ◌&&◌, List, [], ◌∷◌, ◌++◌, map, arith,
}
use kvorum.Sources.Calldata.Hex.{
  Text, IsByte, from_hex, all_hex, same_bytes, from_hex-IsByte, same_bytes→eq,
}
use kvorum.Sources.Calldata.EvmScript.{
  decoded, decode_error, no_fuel, push_call, address_bytes, length_bytes, spec_id, calldata_length,
  body, call_at, decode_calls, decode_bytes, raw_of, decode_raw, decode_evm_script, EvmScriptCall,
  Decoded, not_hex, unsupported_spec_id, truncated,
}
use kvorum.Sources.Calldata.EvmScript.Frames.{frame_bytes, frames_bytes, frame_call, Frame, IsFrame}
use kvorum.Sources.Calldata.EvmScript.RoundTrip.{decode_bytes-frames}
use kvorum.Sources.Calldata.EvmScript.Front.{
  All-drop, front, front-IsFrame, front-bytes, front-call,
}

-- Some calls whose bytes these are.
abbrev pub Calls : List ℕ → List EvmScriptCall → Type 0
Calls src cs =
    (fs : List Frame) × All IsFrame fs × (frames_bytes fs ≡ src) × (map frame_call fs ≡ cs)

-- What the loop's answers say.
abbrev CallsVerdict : List ℕ → Decoded → Type 0
CallsVerdict src (decoded cs) = Calls src cs
CallsVerdict src (decode_error truncated) = Unit
CallsVerdict src (decode_error not_hex) = ⊥
CallsVerdict src (decode_error unsupported_spec_id) = ⊥
CallsVerdict src no_fuel = ⊥

more_calls :
    (f : Frame) (rest : List ℕ) (d : Decoded)
    → IsFrame f
    → CallsVerdict rest d
    → CallsVerdict (frame_bytes f ++ rest) (push_call (frame_call f) d)
unfolding push_call frames_bytes
more_calls f rest (decoded cs) h (fs, k, e, g) =
    (f ∷ fs, (h, k), ap (λ zs. frame_bytes f ++ zs) e, ap (λ zs. frame_call f ∷ zs) g)
more_calls f rest (decode_error truncated) h v = tt
more_calls f rest (decode_error not_hex) h v = v
more_calls f rest (decode_error unsupported_spec_id) h v = v
more_calls f rest no_fuel h v = v

round_verdict :
    (src : List ℕ) (rest : Decoded)
    → All IsByte src
    → CallsVerdict (drop (calldata_length src) (body src)) rest
    → CallsVerdict src (
        if ltb (length src) (address_bytes + length_bytes)
        then decode_error truncated
        else if ltb (length (body src)) (calldata_length src)
        then decode_error truncated
        else push_call (call_at src) rest)
round_verdict src rest bytes v = elim (Bool-cases (ltb (length src) 24)) [
  | inl e ↦ rw e tt
  | inr e ↦ elim (Bool-cases (ltb (length (body src)) (calldata_length src))) [
    | inl g ↦ rw (e, g) tt
    | inr g ↦
        let header : 24 ≤ length src = ground arith in
        let fits : calldata_length src ≤ length (body src) = ground arith in
        rw (e, g, front-call src bytes header fits)
          (subst (λ bs. CallsVerdict bs (push_call (frame_call (front src)) rest))
            (front-bytes src bytes header fits)
            (more_calls (front src) _ rest (front-IsFrame src bytes header fits) v))
  ]
]

length-rest :
    (b : ℕ) (bs : List ℕ) → length (drop (calldata_length (b ∷ bs)) (body (b ∷ bs))) ≤ length bs
unfolding body
length-rest b bs = omega (
  arith,
  length-drop (calldata_length (b ∷ bs)) (drop 4 (drop 20 (b ∷ bs))),
  length-drop 4 (drop 20 (b ∷ bs)),
  length-drop 19 bs,
)

decode_calls-verdict :
    (fuel : ℕ) (src : List ℕ)
    → length src ≤ fuel
    → All IsByte src
    → CallsVerdict src (decode_calls fuel src)
unfolding decode_calls frames_bytes body
decode_calls-verdict fuel [] h k = ([], tt, refl, refl)
decode_calls-verdict zero (b ∷ bs) h k = ground arith
decode_calls-verdict (suc fuel) (b ∷ bs) h k =
    let src = b ∷ bs in
    let rest = drop (calldata_length src) (body src) in
    round_verdict src (decode_calls fuel rest) k
      (decode_calls-verdict fuel rest (omega (arith, length-rest b bs)) (rest_bytes src k))
  where
    rest_bytes :
        (src : List ℕ) → All IsByte src → All IsByte (drop (calldata_length src) (body src))
    rest_bytes src k =
        All-drop (calldata_length src) (body src) (All-drop 4 (drop 20 src) (All-drop 20 src k))

-- What an answer says of the digits behind the prefix: which calls they list; or that they are no
-- bytes, or bytes that begin otherwise, or bytes that begin well and list no calls.
abbrev pub Verdict : Text → Decoded → Type 0
Verdict raw (decoded cs) =
    (raw ≡ []) × (cs ≡ []) ⊎ ((src : List ℕ) × (from_hex raw ≡ spec_id ++ src) × Calls src cs)
Verdict raw (decode_error not_hex) = all_hex raw && (length raw % 2 == 0) ≡ false
Verdict raw (decode_error unsupported_spec_id) = same_bytes (take 4 (from_hex raw)) spec_id ≡ false
Verdict raw (decode_error truncated) =
    ¬ ((fs : List Frame) × All IsFrame fs × (from_hex raw ≡ spec_id ++ frames_bytes fs))
Verdict raw no_fuel = ⊥

-- The same, of the bytes.
abbrev BytesVerdict : List ℕ → Decoded → Type 0
BytesVerdict bytes (decoded cs) = (src : List ℕ) × (bytes ≡ spec_id ++ src) × Calls src cs
BytesVerdict bytes (decode_error truncated) = Unit
BytesVerdict bytes (decode_error not_hex) = ⊥
BytesVerdict bytes (decode_error unsupported_spec_id) = same_bytes (take 4 bytes) spec_id ≡ false
BytesVerdict bytes no_fuel = ⊥

with_spec_id :
    (bytes : List ℕ) (d : Decoded)
    → bytes ≡ spec_id ++ drop 4 bytes
    → CallsVerdict (drop 4 bytes) d
    → BytesVerdict bytes d
with_spec_id bytes (decoded cs) e v = (drop 4 bytes, e, v)
with_spec_id bytes (decode_error truncated) e v = tt
with_spec_id bytes (decode_error not_hex) e v = v
with_spec_id bytes (decode_error unsupported_spec_id) e v = elim v [ ]
with_spec_id bytes no_fuel e v = v

decode_bytes-verdict : (bytes : List ℕ) → All IsByte bytes → BytesVerdict bytes (decode_bytes bytes)
unfolding decode_bytes
decode_bytes-verdict bytes h = elim (Bool-cases (ltb (length bytes) 4)) [
  | inl e ↦ rw (e, decode_bytes) tt
  | inr e ↦ elim (Bool-cases (same_bytes (take 4 bytes) spec_id)) [
    | inr g ↦ rw (e, g, decode_bytes) g
    | inl g ↦
        rw (e, g, decode_bytes)
          (with_spec_id bytes (decode_calls (length bytes) (drop 4 bytes))
            (sym (append-take-drop 4 bytes)
              ∙ ap (λ xs. xs ++ drop 4 bytes) (same_bytes→eq (take 4 bytes) spec_id g))
            (decode_calls-verdict (length bytes) (drop 4 bytes) (omega (arith, length-drop 4 bytes))
              (All-drop 4 bytes h)))
  ]
]

abbrev is_decoded : Decoded → Bool
is_decoded (decoded cs) = true
is_decoded (decode_error e) = false
is_decoded no_fuel = false

bytes→raw :
    (raw : Text) (d : Decoded)
    → decode_bytes (from_hex raw) ≡ d
    → BytesVerdict (from_hex raw) d
    → Verdict raw d
bytes→raw raw (decoded cs) e v = inr v
bytes→raw raw (decode_error truncated) e v = λ (fs, h, is).
    clash refl (ap is_decoded (sym (decode_bytes-frames fs h) ∙ ap decode_bytes (sym is) ∙ e))
bytes→raw raw (decode_error not_hex) e v = elim v [ ]
bytes→raw raw (decode_error unsupported_spec_id) e v = v
bytes→raw raw no_fuel e v = v

decode_raw-Verdict : (raw : Text) → Verdict raw (decode_raw raw)
unfolding decode_raw
decode_raw-Verdict [] = inl (refl, refl)
decode_raw-Verdict (c ∷ rest) =
    let raw = c ∷ rest in
    let even = length raw % 2 == 0 in
    elim (Bool-cases (all_hex raw)) [
      | inr e ↦ rw (e, decode_raw) (ap (λ b. b && even) e)
      | inl e ↦ elim (Bool-cases even) [
        | inr g ↦ rw (e, g, decode_raw) (ap (λ b. b && even) e ∙ g)
        | inl g ↦
            rw (e, g, decode_raw)
              (bytes→raw raw (decode_bytes (from_hex raw)) refl
                (decode_bytes-verdict (from_hex raw) (from_hex-IsByte raw e)))
      ]
    ]

-- decodeEvmScript always gives an answer. Calls are given only for an empty script or for bytes that
-- are the spec id and just the encoding of these calls; `not_hex` only if the script is not an even
-- number of hexadecimal digits, `unsupported_spec_id` only if its bytes begin otherwise, and
-- `truncated` only if its bytes encode no list of calls.
pub decode_evm_script-Verdict : (s : Text) → Verdict (raw_of s) (decode_evm_script s)
unfolding decode_evm_script
decode_evm_script-Verdict s = decode_raw-Verdict (raw_of s)
