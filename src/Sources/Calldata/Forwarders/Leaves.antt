-- ===== src/Sources/Calldata/Forwarders/Leaves.antt =====
-- What the leaves of unwrapCall are.
use kvorum.Base.{
  Bool-cases, and_true, concat, All, All-append, All-map, ℕ, zero, suc, ◌≡◌, refl, ap, ◌∙◌, inl,
  inr, true, ◌&&◌, Option, none, some, List, [], ◌∷◌, map, Memᴰ,
}
use kvorum.Sources.Calldata.Hex.{Text, to_lower_case, same_bytes}
use kvorum.Sources.Calldata.EvmScript.{
  decode_evm_script, EvmScriptCall, Decoded, decoded, decode_error, no_fuel,
}
use kvorum.Sources.Calldata.Forwarders.{
  has, registry_get, call_selector, opaque_leaf, execute_leaf, nested_leaves, forward_leaves,
  execute_leaves, entry_leaves, unwrap_call, ForwarderEntry, Execute, ProposalActionInput, Abi,
}
use kvorum.Sources.Calldata.Forwarders.Registry.{responds_entry, responds}

module _ (abi : Abi) (registry : List ForwarderEntry) (chain : ℕ) where
  -- A call by an address that responds to a selector, which it carries.
  pub record Uses (call : EvmScriptCall) (selector : Text) : Type 0 where
    pub address_responds : responds registry (to_lower_case call.to) selector ≡ true
    pub carries : same_bytes (call_selector call) selector ≡ true

  -- A call that another one holds, through nested scripts of known forwarders.
  pub data Holds : EvmScriptCall → EvmScriptCall → Type 0 where
    itself : {call : EvmScriptCall} → Holds call call
    nested :
        {script : Text} {calls : List EvmScriptCall} {call inner leaf : EvmScriptCall}
        → Uses call abi.forward_selector
        → abi.decode_forward call.calldata ≡ some script
        → decode_evm_script script ≡ decoded calls
        → Memᴰ inner calls
        → Holds inner leaf
        → Holds call leaf

  -- A leaf that a call stands for by itself: opaque, without value; or that of `execute`.
  pub data Leaf (call : EvmScriptCall) : ProposalActionInput → Type 0 where
    opaque : Leaf call (opaque_leaf abi registry chain call)
    executed :
        {x : Execute}
        → Uses call abi.execute_selector
        → abi.decode_execute call.calldata ≡ some x
        → Leaf call (execute_leaf abi registry chain x)

  abbrev pub LeafWithin : EvmScriptCall → ProposalActionInput → Type 0
  LeafWithin call l = (held : EvmScriptCall) × Holds call held × Leaf held l

  entry-Uses :
      (call : EvmScriptCall) (e : ForwarderEntry) (s : Text)
      → registry_get registry call.to ≡ some e
      → has e.selectors s && same_bytes (call_selector call) s ≡ true
      → Uses call s
  entry-Uses call e s found h =
      let (x, y) = and_true (has e.selectors s) (same_bytes (call_selector call) s) h in
      record { address_responds = ap (λ o. responds_entry o s) found ∙ x; carries = y }

  outward :
      (call inner : EvmScriptCall) (script : Text) (calls : List EvmScriptCall)
      → Uses call abi.forward_selector
      → abi.decode_forward call.calldata ≡ some script
      → decode_evm_script script ≡ decoded calls
      → Memᴰ inner calls
      → (ls : List ProposalActionInput) → All (LeafWithin inner) ls
      → All (LeafWithin call) ls
  outward call inner script calls u d e m ls =
      All-map (λ l (held, h, leaf). (held, nested u d e m h, leaf)) ls

  flat_map-leaves :
      (call : EvmScriptCall) (unwrap : EvmScriptCall → List ProposalActionInput)
      (all rest : List EvmScriptCall)
      → ((inner : EvmScriptCall) → Memᴰ inner all → All (LeafWithin call) (unwrap inner))
      → ((inner : EvmScriptCall) → Memᴰ inner rest → Memᴰ inner all)
      → All (LeafWithin call) (concat (map unwrap rest))
  flat_map-leaves call unwrap all [] h k = tt
  flat_map-leaves call unwrap all (c ∷ cs) h k =
      All-append (LeafWithin call) (unwrap c) (concat (map unwrap cs)) (h c (k c (Memᴰ.head refl)))
        (flat_map-leaves call unwrap all cs h (λ i m. k i (Memᴰ.tail m)))

  module _ (unwrap : EvmScriptCall → List ProposalActionInput)
      (sound : (c : EvmScriptCall) → All (LeafWithin c) (unwrap c)) (call : EvmScriptCall) where
    one_opaque : All (LeafWithin call) (opaque_leaf abi registry chain call ∷ [])
    one_opaque = ((call, itself, opaque), tt)

    nested_leaves-LeafWithin :
        (script : Text) (d : Decoded)
        → Uses call abi.forward_selector
        → abi.decode_forward call.calldata ≡ some script
        → decode_evm_script script ≡ d
        → All (LeafWithin call) (nested_leaves abi registry chain unwrap call d)
    unfolding nested_leaves
    nested_leaves-LeafWithin script (decoded calls) u f e =
        flat_map-leaves call unwrap calls calls
          (λ inner m. outward call inner script calls u f e m (unwrap inner) (sound inner))
          (λ i m. m)
    nested_leaves-LeafWithin script (decode_error r) u f e = one_opaque
    nested_leaves-LeafWithin script no_fuel u f e = one_opaque

    forward_leaves-LeafWithin :
        (o : Option Text)
        → Uses call abi.forward_selector
        → abi.decode_forward call.calldata ≡ o
        → All (LeafWithin call) (forward_leaves abi registry chain unwrap call o)
    unfolding forward_leaves
    forward_leaves-LeafWithin none u f = one_opaque
    forward_leaves-LeafWithin (some script) u f =
        nested_leaves-LeafWithin script (decode_evm_script script) u f refl

    execute_leaves-LeafWithin :
        (o : Option Execute)
        → Uses call abi.execute_selector
        → abi.decode_execute call.calldata ≡ o
        → All (LeafWithin call) (execute_leaves abi registry chain call o)
    unfolding execute_leaves
    execute_leaves-LeafWithin none u f = one_opaque
    execute_leaves-LeafWithin (some x) u f = ((call, itself, executed u f), tt)

    entry_leaves-LeafWithin :
        (o : Option ForwarderEntry)
        → registry_get registry call.to ≡ o
        → All (LeafWithin call) (entry_leaves abi registry chain unwrap call o)
    unfolding entry_leaves
    entry_leaves-LeafWithin none e = one_opaque
    entry_leaves-LeafWithin (some entry) e =
        let selector = call_selector call in
        elim (Bool-cases
          (has entry.selectors abi.forward_selector && same_bytes selector abi.forward_selector)) [
            | inl f ↦
                rw (f, entry_leaves)
                  (forward_leaves-LeafWithin (abi.decode_forward call.calldata)
                    (entry-Uses call entry _ e f) refl)
            | inr f ↦
                elim (Bool-cases (
                  has entry.selectors abi.execute_selector
                  && same_bytes selector abi.execute_selector)) [
                    | inl g ↦
                        rw (f, g, entry_leaves)
                          (execute_leaves-LeafWithin (abi.decode_execute call.calldata)
                            (entry-Uses call entry _ e g) refl)
                    | inr g ↦ rw (f, g, entry_leaves) one_opaque
                  ]
          ]

  -- Each leaf of a call comes from a call that it holds through `forward`s of known forwarders: an
  -- opaque leaf without value, or the target, value and data of an `execute` of an address that has
  -- this selector.
  pub unwrap_call-LeafWithin :
      (left : ℕ) (call : EvmScriptCall)
      → All (LeafWithin call) (unwrap_call abi registry chain left call)
  unfolding unwrap_call
  unwrap_call-LeafWithin zero call = one_opaque (λ c. []) (λ c. tt) call
  unwrap_call-LeafWithin (suc left) call =
      entry_leaves-LeafWithin (unwrap_call abi registry chain left) (unwrap_call-LeafWithin left)
        call (registry_get registry call.to) refl
