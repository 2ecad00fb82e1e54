-- ===== src/Sources/Calldata/EvmScript.antt =====
-- decodeEvmScript, of libs/sources/core/src/calldata/evmscript.ts. A Buffer is the list of its bytes
-- and the loop holds the bytes from `offset` on. Each round takes 24 bytes at least, so the number of
-- bytes is enough fuel. The messages of the errors are left out.
pub mod Frames
pub mod RoundTrip
pub mod Front
pub mod Sound
use kvorum.Base.{
  ltb, ◌==◌, if◌then◌else◌, length, take, drop, ℕ, zero, suc, ◌+◌, ◌*◌, ◌%◌, not, ◌&&◌, ◌||◌, List,
  [], ◌∷◌,
}
use kvorum.Sources.Calldata.Hex.{
  Text, to_hex, from_hex, to_lower_case, with_prefix, all_hex, same_bytes,
}

pub record EvmScriptCall : Type 0 where
  pub to : Text
  pub calldata : Text

pub data EvmScriptDecodeErrorReason : Type 0 where
  not_hex unsupported_spec_id truncated : EvmScriptDecodeErrorReason

pub data Decoded : Type 0 where
  decoded : List EvmScriptCall → Decoded
  decode_error : EvmScriptDecodeErrorReason → Decoded
  no_fuel : Decoded

-- `calls.push(call)` before the calls of the rest.
unfoldable pub push_call : EvmScriptCall → Decoded → Decoded
push_call c (decoded cs) = decoded (c ∷ cs)
push_call c (decode_error e) = decode_error e
push_call c no_fuel = no_fuel

abbrev pub address_bytes : ℕ
address_bytes = 20

abbrev pub length_bytes : ℕ
length_bytes = 4

abbrev pub spec_id_bytes : ℕ
spec_id_bytes = 4

-- `0x00000001`.
abbrev pub spec_id : List ℕ
spec_id = 0 ∷ 0 ∷ 0 ∷ 1 ∷ []

-- Of the bytes from its first argument on.
read_big_endian : ℕ → List ℕ → ℕ
read_big_endian acc [] = acc
read_big_endian acc (b ∷ bs) = read_big_endian (acc * 256 + b) bs

-- `readUInt32BE`.
unfoldable pub read_uint32_be : List ℕ → ℕ
unfolding read_big_endian
read_uint32_be bs = read_big_endian 0 (take length_bytes bs)

unfoldable pub address_of : List ℕ → Text
address_of src = with_prefix (to_lower_case (to_hex (take address_bytes src)))

-- The length that stands behind the address, and the bytes behind it.
unfoldable pub calldata_length : List ℕ → ℕ
calldata_length src = read_uint32_be (drop address_bytes src)

unfoldable pub body : List ℕ → List ℕ
body src = drop length_bytes (drop address_bytes src)

unfoldable pub call_at : List ℕ → EvmScriptCall
call_at src = record {
  to = address_of src;
  calldata = with_prefix (to_hex (take (calldata_length src) (body src)));
}

unfoldable pub decode_calls : ℕ → List ℕ → Decoded
decode_calls fuel [] = decoded []
decode_calls zero (b ∷ bs) = no_fuel
decode_calls (suc fuel) (b ∷ bs) =
    let src = b ∷ bs in
    let rest = decode_calls fuel (drop (calldata_length src) (body src)) in
    if ltb (length src) (address_bytes + length_bytes)
    then decode_error truncated
    else if ltb (length (body src)) (calldata_length src)
    then decode_error truncated
    else push_call (call_at src) rest

unfoldable pub decode_bytes : List ℕ → Decoded
decode_bytes bytes =
    if ltb (length bytes) spec_id_bytes
    then decode_error truncated
    else if not (same_bytes (take spec_id_bytes bytes) spec_id)
    then decode_error unsupported_spec_id
    else decode_calls (length bytes) (drop spec_id_bytes bytes)

unfoldable pub raw_of : Text → Text
raw_of [] = []
raw_of (c ∷ []) = c ∷ []
raw_of (c ∷ d ∷ rest) = if (c == 48) && (d == 120) then rest else c ∷ d ∷ rest

unfoldable pub decode_raw : Text → Decoded
decode_raw [] = decoded []
decode_raw (c ∷ rest) =
    let raw = c ∷ rest in
    if not (all_hex raw) || not (length raw % 2 == 0)
    then decode_error not_hex
    else decode_bytes (from_hex raw)

unfoldable pub decode_evm_script : Text → Decoded
decode_evm_script script_hex = decode_raw (raw_of script_hex)
