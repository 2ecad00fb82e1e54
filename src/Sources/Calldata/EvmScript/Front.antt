-- ===== src/Sources/Calldata/EvmScript/Front.antt =====
-- The call at the front of some bytes, of the wire format of
-- libs/sources/core/src/calldata/evmscript.ts.
use kvorum.Base.{
  length, take, drop, All, All-split, append-take-drop, length-take, length-drop, ℕ, ◌≤◌, ◌<◌, ◌≡◌,
  refl, sym, ap, ◌∙◌, subst, List, [], ◌∷◌, ◌++◌, append_assoc, arith,
}
use kvorum.Sources.Calldata.Hex.{IsByte, to_lower_case-to_hex, cons_eq}
use kvorum.Sources.Calldata.EvmScript.{read_uint32_be, address_of, calldata_length, body, call_at}
use kvorum.Sources.Calldata.EvmScript.Frames.{uint32_be, frame_bytes, frame_call, Frame, IsFrame}

All-take : (n : ℕ) (bs : List ℕ) → All IsByte bs → All IsByte (take n bs)
All-take n bs h =
    (All-split IsByte (take n bs) (drop n bs)
      (subst (All IsByte) (sym (append-take-drop n bs)) h)).0

pub All-drop : (n : ℕ) (bs : List ℕ) → All IsByte bs → All IsByte (drop n bs)
All-drop n bs h =
    (All-split IsByte (take n bs) (drop n bs)
      (subst (All IsByte) (sym (append-take-drop n bs)) h)).1

uint32_be-read :
    (bs : List ℕ) → 4 ≤ length bs → All IsByte bs → uint32_be (read_uint32_be bs) ++ drop 4 bs ≡ bs
unfolding read_uint32_be
uint32_be-read [] h k = ground arith
uint32_be-read (a ∷ []) h k = ground arith
uint32_be-read (a ∷ b ∷ []) h k = ground arith
uint32_be-read (a ∷ b ∷ c ∷ []) h k = ground arith
uint32_be-read (a ∷ b ∷ c ∷ d ∷ rest) h (ka, (kb, (kc, (kd, k)))) =
    cons_eq (omega arith)
      (cons_eq (omega arith) (cons_eq (omega arith) (cons_eq (omega arith) refl)))

read-bound : (bs : List ℕ) → 4 ≤ length bs → All IsByte bs → read_uint32_be bs < 4294967296
unfolding read_uint32_be
read-bound [] h k = ground arith
read-bound (a ∷ []) h k = ground arith
read-bound (a ∷ b ∷ []) h k = ground arith
read-bound (a ∷ b ∷ c ∷ []) h k = ground arith
read-bound (a ∷ b ∷ c ∷ d ∷ rest) h (ka, (kb, (kc, (kd, k)))) = omega arith

-- The call that stands at the front of some bytes.
abbrev pub front : List ℕ → Frame
front src = record { target = take 20 src; payload = take (calldata_length src) (body src) }

module _ (src : List ℕ) (bytes : All IsByte src) (header : 24 ≤ length src)
    (fits : calldata_length src ≤ length (body src)) where
  pub front-IsFrame : IsFrame (front src)
  unfolding calldata_length body
  front-IsFrame = record {
    target_length = length-take 20 src (omega arith);
    target_bytes = All-take 20 src bytes;
    payload_length =
        subst (λ n. n < 4294967296) (sym (length-take (calldata_length src) (body src) fits))
          (read-bound (drop 20 src) (omega (arith, length-drop 20 src)) (All-drop 20 src bytes));
    payload_bytes =
        All-take (calldata_length src) (body src)
          (All-drop 4 (drop 20 src) (All-drop 20 src bytes));
  }

  pub front-bytes : frame_bytes (front src) ++ drop (calldata_length src) (body src) ≡ src
  unfolding calldata_length body
  front-bytes =
      append_assoc (take 20 src) _ _
      ∙ ap (λ zs. take 20 src ++ zs)
          (ap
              (λ n.
                (uint32_be n ++ take (calldata_length src) (body src))
                ++ drop (calldata_length src) (body src))
              (length-take (calldata_length src) (body src) fits)
            ∙ append_assoc (uint32_be (calldata_length src)) (take (calldata_length src) (body src))
                _
            ∙ ap (λ zs. uint32_be (calldata_length src) ++ zs)
                (append-take-drop (calldata_length src) (body src))
            ∙ uint32_be-read (drop 20 src) (omega (arith, length-drop 20 src))
                (All-drop 20 src bytes))
      ∙ append-take-drop 20 src

  pub front-call : call_at src ≡ frame_call (front src)
  unfolding call_at address_of
  front-call = rw (to_lower_case-to_hex (take 20 src) (All-take 20 src bytes)) refl
