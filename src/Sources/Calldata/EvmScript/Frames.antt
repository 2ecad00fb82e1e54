-- ===== src/Sources/Calldata/EvmScript/Frames.antt =====
-- The wire format of libs/sources/core/src/calldata/evmscript.ts, as an encoder: the bytes of a list
-- of calls, and what one round of the decoder takes off them.
use kvorum.Base.{length, All, ℕ, ◌/◌, ◌%◌, ◌<◌, ◌≡◌, List, [], ◌∷◌, ◌++◌, arith}
use kvorum.Sources.Calldata.Hex.{Text, IsByte, to_hex, with_prefix}
use kvorum.Sources.Calldata.EvmScript.{spec_id, read_uint32_be, EvmScriptCall}

-- A call by its bytes.
pub record Frame : Type 0 where
  pub target : List ℕ
  pub payload : List ℕ

abbrev pub uint32_be : ℕ → List ℕ
uint32_be n = n / 16777216 % 256 ∷ n / 65536 % 256 ∷ n / 256 % 256 ∷ n % 256 ∷ []

-- Twenty bytes of an address, and a payload whose length has 32 bits.
pub record IsFrame (f : Frame) : Type 0 where
  pub target_length : length f.target ≡ 20
  pub target_bytes : All IsByte f.target
  pub payload_length : length f.payload < 4294967296
  pub payload_bytes : All IsByte f.payload

abbrev pub frame_bytes : Frame → List ℕ
frame_bytes f = f.target ++ (uint32_be (length f.payload) ++ f.payload)

unfoldable pub frames_bytes : List Frame → List ℕ
frames_bytes [] = []
frames_bytes (f ∷ fs) = frame_bytes f ++ frames_bytes fs

abbrev pub frame_call : Frame → EvmScriptCall
frame_call f = record {
  to = with_prefix (to_hex f.target);
  calldata = with_prefix (to_hex f.payload);
}

-- The script of a list of calls.
unfoldable pub encode_evm_script : List Frame → Text
encode_evm_script fs = with_prefix (to_hex (spec_id ++ frames_bytes fs))

pub read_uint32_be-uint32_be :
    (n : ℕ) (rest : List ℕ) → n < 4294967296 → read_uint32_be (uint32_be n ++ rest) ≡ n
unfolding read_uint32_be
read_uint32_be-uint32_be n rest h = omega arith
