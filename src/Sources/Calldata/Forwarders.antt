-- ===== src/Sources/Calldata/Forwarders.antt =====
-- createForwarderRegistry and unwrapCall, of libs/sources/lido/src/calldata/forwarders.ts. The two
-- selectors, which the code computes by Keccak, and ethers' decoding of the arguments of `forward` and
-- `execute`, `none` where it throws, are parameters. A Set is the list of its members, a Map from
-- addresses the list of its entries, and `valueWei` the number that its text writes out.
pub mod Registry
pub mod Leaves
use kvorum.Base.{
  leb, if◌then◌else◌, length, take, find, any, concat, ℕ, zero, suc, Bool, ◌&&◌, Option, none, some,
  List, [], ◌∷◌, ◌++◌, map,
}
use kvorum.Sources.Calldata.Hex.{Text, to_hex, to_lower_case, with_prefix, same_bytes}
use kvorum.Sources.Calldata.EvmScript.{
  decode_evm_script, EvmScriptCall, Decoded, decoded, decode_error, no_fuel,
}

pub record ForwarderEntry : Type 0 where
  pub address : Text
  pub selectors : List Text

pub record ExtraEntry : Type 0 where
  pub address : Text
  pub selectors : List Text

pub record Execute : Type 0 where
  pub target : Text
  pub eth_value : ℕ
  pub payload : Text

pub record ProposalActionInput : Type 0 where
  pub target_address : Text
  pub target_chain_id : ℕ
  pub value_wei : ℕ
  pub calldata : Text

-- What the code calls outside itself.
pub record Abi : Type 0 where
  pub forward_selector : Text
  pub execute_selector : Text
  pub decode_forward : Text → Option Text
  pub decode_execute : Text → Option Execute

-- 0x3e40d73eb977dc6a537af587d48316fee66e9c8c.
pub agent : Text
unfolding to_hex
agent = with_prefix (
    to_hex (
      0x3e ∷ 0x40 ∷ 0xd7 ∷ 0x3e ∷ 0xb9 ∷ 0x77 ∷ 0xdc ∷ 0x6a ∷ 0x53 ∷ 0x7a ∷ 0xf5 ∷ 0x87 ∷ 0xd4
      ∷ 0x83 ∷ 0x16 ∷ 0xfe ∷ 0xe6 ∷ 0x6e ∷ 0x9c ∷ 0x8c ∷ []))

-- 0xf73a1260d222f447210581ddf212d915c09a3249.
pub token_manager : Text
unfolding to_hex
token_manager = with_prefix (
    to_hex (
      0xf7 ∷ 0x3a ∷ 0x12 ∷ 0x60 ∷ 0xd2 ∷ 0x22 ∷ 0xf4 ∷ 0x47 ∷ 0x21 ∷ 0x05 ∷ 0x81 ∷ 0xdd ∷ 0xf2
      ∷ 0x12 ∷ 0xd9 ∷ 0x15 ∷ 0xc0 ∷ 0x9a ∷ 0x32 ∷ 0x49 ∷ []))

-- 0x2e59a20f205bb85a89c53f1936454680651e618e.
pub voting : Text
unfolding to_hex
voting = with_prefix (
    to_hex (
      0x2e ∷ 0x59 ∷ 0xa2 ∷ 0x0f ∷ 0x20 ∷ 0x5b ∷ 0xb8 ∷ 0x5a ∷ 0x89 ∷ 0xc5 ∷ 0x3f ∷ 0x19 ∷ 0x36
      ∷ 0x45 ∷ 0x46 ∷ 0x80 ∷ 0x65 ∷ 0x1e ∷ 0x61 ∷ 0x8e ∷ []))

abbrev pub max_depth : ℕ
max_depth = 8

unfoldable pub has : List Text → Text → Bool
has selectors s = any (λ t. same_bytes t s) selectors

-- `selectors.add(s)` for each of some selectors.
unfoldable pub add_all : List Text → List Text → List Text
add_all set [] = set
add_all set (s ∷ ss) = add_all (if has set s then set else set ++ (s ∷ [])) ss

-- One entry of `extra` added to the map.
unfoldable pub extend : List ForwarderEntry → ExtraEntry → List ForwarderEntry
extend [] x =
    record {
      address = to_lower_case x.address;
      selectors = add_all [] (map to_lower_case x.selectors);
    }
    ∷ []
extend (e ∷ es) x =
    let rest = extend es x in
    if same_bytes e.address (to_lower_case x.address)
    then record {
      address = e.address;
      selectors = add_all e.selectors (map to_lower_case x.selectors);
    }
      ∷ es
    else e ∷ rest

unfoldable pub extend_all : List ForwarderEntry → List ExtraEntry → List ForwarderEntry
extend_all es [] = es
extend_all es (x ∷ xs) = extend_all (extend es x) xs

abbrev pub default_entries : Abi → List ForwarderEntry
default_entries abi =
    record { address = agent; selectors = abi.forward_selector ∷ abi.execute_selector ∷ [] }
    ∷ record { address = token_manager; selectors = abi.forward_selector ∷ [] }
    ∷ record { address = voting; selectors = abi.forward_selector ∷ [] }
    ∷ []

abbrev pub create_forwarder_registry : Abi → List ExtraEntry → List ForwarderEntry
create_forwarder_registry abi extra = extend_all (default_entries abi) extra

abbrev pub registry_get : List ForwarderEntry → Text → Option ForwarderEntry
registry_get registry address = find (λ e. same_bytes e.address (to_lower_case address)) registry

unfoldable pub call_selector : EvmScriptCall → Text
call_selector call =
    if leb 10 (length call.calldata) then to_lower_case (take 10 call.calldata) else []

module _ (abi : Abi) (registry : List ForwarderEntry) (chain : ℕ) where
  abbrev pub opaque_leaf : EvmScriptCall → ProposalActionInput
  opaque_leaf call = record {
    target_address = call.to;
    target_chain_id = chain;
    value_wei = 0;
    calldata = call.calldata;
  }

  abbrev pub execute_leaf : Execute → ProposalActionInput
  execute_leaf x = record {
    target_address = to_lower_case x.target;
    target_chain_id = chain;
    value_wei = x.eth_value;
    calldata = x.payload;
  }

  -- `flatMap` of the nested calls, if the nested script decodes.
  unfoldable pub nested_leaves :
      (EvmScriptCall → List ProposalActionInput)
      → EvmScriptCall
      → Decoded
      → List ProposalActionInput
  nested_leaves unwrap call (decoded calls) = concat (map unwrap calls)
  nested_leaves unwrap call (decode_error e) = opaque_leaf call ∷ []
  nested_leaves unwrap call no_fuel = opaque_leaf call ∷ []

  unfoldable pub forward_leaves :
      (EvmScriptCall → List ProposalActionInput)
      → EvmScriptCall
      → Option Text
      → List ProposalActionInput
  forward_leaves unwrap call none = opaque_leaf call ∷ []
  forward_leaves unwrap call (some script) = nested_leaves unwrap call (decode_evm_script script)

  unfoldable pub execute_leaves : EvmScriptCall → Option Execute → List ProposalActionInput
  execute_leaves call none = opaque_leaf call ∷ []
  execute_leaves call (some x) = execute_leaf x ∷ []

  unfoldable pub entry_leaves :
      (EvmScriptCall → List ProposalActionInput)
      → EvmScriptCall
      → Option ForwarderEntry
      → List ProposalActionInput
  entry_leaves unwrap call none = opaque_leaf call ∷ []
  entry_leaves unwrap call (some entry) =
      let selector = call_selector call in
      if has entry.selectors abi.forward_selector && same_bytes selector abi.forward_selector
      then forward_leaves unwrap call (abi.decode_forward call.calldata)
      else if has entry.selectors abi.execute_selector && same_bytes selector abi.execute_selector
      then execute_leaves call (abi.decode_execute call.calldata)
      else opaque_leaf call ∷ []

  -- The argument is what is left of the depth, `MAX_DEPTH - depth`.
  unfoldable pub unwrap_call : ℕ → EvmScriptCall → List ProposalActionInput
  unwrap_call zero call = opaque_leaf call ∷ []
  unwrap_call (suc left) call = entry_leaves (unwrap_call left) call (registry_get registry call.to)
