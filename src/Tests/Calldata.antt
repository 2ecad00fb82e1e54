-- ===== src/Tests/Calldata.antt =====
-- The decoders' theorems at concrete scripts and calls.
use kvorum.Base.{
  length, All, ℕ, zero, suc, ◌<◌, ◌≡◌, refl, ◌||◌, none, some, List, [], ◌∷◌, map, arith,
}
use kvorum.Sources.Calldata.Hex.{Text, IsByte}
use kvorum.Sources.Calldata.EvmScript.{raw_of, decode_evm_script, EvmScriptCall, decoded}
use kvorum.Sources.Calldata.EvmScript.Frames.{frame_call, encode_evm_script, Frame, IsFrame}
use kvorum.Sources.Calldata.EvmScript.RoundTrip.{decode_evm_script-encode}
use kvorum.Sources.Calldata.EvmScript.Sound.{Verdict, decode_evm_script-Verdict}
use kvorum.Sources.Calldata.Forwarders.{
  max_depth, create_forwarder_registry, unwrap_call, ForwarderEntry, ExtraEntry, Abi,
}
use kvorum.Sources.Calldata.Forwarders.Registry.{
  responds, lists, known, create_forwarder_registry-responds,
}
use kvorum.Sources.Calldata.Forwarders.Leaves.{LeafWithin, unwrap_call-LeafWithin}

abbrev ones : ℕ → List ℕ
ones zero = []
ones (suc n) = 1 ∷ ones n

abbrev two_calls : List Frame
two_calls =
    record { target = ones 20; payload = 5 ∷ 6 ∷ [] }
    ∷ record { target = ones 20; payload = [] }
    ∷ []

two_calls-IsFrame : All IsFrame two_calls
two_calls-IsFrame = (
  short (5 ∷ 6 ∷ []) (omega arith) (omega arith, (omega arith, tt)),
  (short [] (omega arith) tt, tt),
)
  where
    ones_bytes : (n : ℕ) → All IsByte (ones n)
    ones_bytes zero = tt
    ones_bytes (suc n) = (omega arith, ones_bytes n)

    short :
        (p : List ℕ)
        → length p < 4294967296
        → All IsByte p
        → IsFrame (record { target = ones 20; payload = p })
    short p h k = record {
      target_length = refl;
      target_bytes = ones_bytes 20;
      payload_length = h;
      payload_bytes = k;
    }

decode_evm_script-encode_example :
    decode_evm_script (encode_evm_script two_calls) ≡ decoded (map frame_call two_calls)
decode_evm_script-encode_example = decode_evm_script-encode two_calls two_calls-IsFrame

abbrev cut_script : Text
cut_script = 48 ∷ 120 ∷ 48 ∷ 48 ∷ 48 ∷ 48 ∷ 48 ∷ 48 ∷ 48 ∷ 49 ∷ 48 ∷ 49 ∷ []

decode_evm_script-Verdict_example : Verdict (raw_of cut_script) (decode_evm_script cut_script)
decode_evm_script-Verdict_example = decode_evm_script-Verdict cut_script

-- `0x` and eight digits.
abbrev forward : Text
forward = 48 ∷ 120 ∷ 49 ∷ 49 ∷ 49 ∷ 49 ∷ 49 ∷ 49 ∷ 49 ∷ 49 ∷ []

abbrev execute : Text
execute = 48 ∷ 120 ∷ 50 ∷ 50 ∷ 50 ∷ 50 ∷ 50 ∷ 50 ∷ 50 ∷ 50 ∷ []

abbrev home : Text
home = 48 ∷ 120 ∷ 51 ∷ []

abbrev two_selectors : Abi
two_selectors = record {
  forward_selector = forward;
  execute_selector = execute;
  decode_forward = λ t. some (encode_evm_script two_calls);
  decode_execute = λ t. none;
}

abbrev one_extra : List ExtraEntry
one_extra = record { address = home; selectors = execute ∷ [] } ∷ []

create_forwarder_registry-responds_example :
    responds (create_forwarder_registry two_selectors one_extra) home execute
    ≡ known two_selectors home execute || lists one_extra home execute
create_forwarder_registry-responds_example =
    create_forwarder_registry-responds two_selectors one_extra home execute

abbrev one_forwarder : List ForwarderEntry
one_forwarder = record { address = home; selectors = forward ∷ [] } ∷ []

abbrev forwarded : EvmScriptCall
forwarded = record { to = home; calldata = forward }

unwrap_call-LeafWithin_example :
    All
      (LeafWithin two_selectors one_forwarder 1 forwarded)
      (unwrap_call two_selectors one_forwarder 1 max_depth forwarded)
unwrap_call-LeafWithin_example =
    unwrap_call-LeafWithin two_selectors one_forwarder 1 max_depth forwarded
