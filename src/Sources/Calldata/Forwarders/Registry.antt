-- ===== src/Sources/Calldata/Forwarders/Registry.antt =====
-- Which selectors an address of the forwarder registry responds to.
use kvorum.Base.{
  if◌then◌else◌, Bool-cases, clash, find, any, ◌≡◌, refl, sym, ap, ◌∙◌, inl, inr, Bool, true, false,
  ◌&&◌, ◌||◌, Option, none, some, List, [], ◌∷◌, ◌++◌, map, arith,
}
use kvorum.Sources.Calldata.Hex.{Text, to_lower_case, same_bytes, same_bytes→eq, same_bytes_refl}
use kvorum.Sources.Calldata.Forwarders.{
  agent, token_manager, voting, has, add_all, extend, extend_all, default_entries,
  create_forwarder_registry, ForwarderEntry, ExtraEntry, Abi,
}

abbrev pub responds_entry : Option ForwarderEntry → Text → Bool
responds_entry none s = false
responds_entry (some e) s = has e.selectors s

-- Whether the entry of an address, in lower case, has a selector.
abbrev pub responds : List ForwarderEntry → Text → Text → Bool
responds es key s = responds_entry (find (λ e. same_bytes e.address key) es) s

abbrev pub lists : List ExtraEntry → Text → Text → Bool
lists extra key s =
    any (λ x. same_bytes (to_lower_case x.address) key && has (map to_lower_case x.selectors) s)
      extra

any-append : (p : Text → Bool) (xs ys : List Text) → any p (xs ++ ys) ≡ any p xs || any p ys
any-append p [] ys = refl
any-append p (x ∷ xs) ys = ground (arith, any-append p xs ys)

or_false : (a : Bool) → a || false ≡ a
or_false true = refl
or_false false = refl

or_true : (a : Bool) → a || true ≡ true
or_true true = refl
or_true false = refl

member-or :
    (p : Text → Bool) (set : List Text) (t : Text) → any p set ≡ true → any p set || p t ≡ any p set
member-or p set t h = rw h refl

or_assoc : (a b c : Bool) → (a || b) || c ≡ a || (b || c)
or_assoc true b c = refl
or_assoc false b c = refl

has-member : (set : List Text) (t s : Text) → has set t ≡ true → t ≡ s → has set s ≡ true
has-member set t s h e = ap (has set) (sym e) ∙ h

has-add :
    (set : List Text) (t s : Text)
    → has (if has set t then set else set ++ (t ∷ [])) s ≡ has set s || same_bytes t s
unfolding has
has-add set t s = elim (Bool-cases (has set t)) [
  | inr e ↦
      rw (e, has)
        (any-append (λ r. same_bytes r s) set (t ∷ [])
          ∙ ap (λ b. has set s || b) (or_false (same_bytes t s)))
  | inl e ↦ elim (Bool-cases (same_bytes t s)) [
    | inr g ↦ rw (e, g, has) (sym (or_false (has set s)))
    | inl g ↦
        rw (e, g, has) (has-member set t s e (same_bytes→eq t s g) ∙ sym (or_true (has set s)))
  ]
]

has-add_all : (set ss : List Text) (s : Text) → has (add_all set ss) s ≡ has set s || has ss s
unfolding add_all has
has-add_all set [] s = sym (or_false (has set s))
has-add_all set (t ∷ ss) s =
    has-add_all (if has set t then set else set ++ (t ∷ [])) ss s
    ∙ ap (λ b. b || has ss s) (has-add set t s)
    ∙ or_assoc (has set s) (same_bytes t s) (has ss s)

other_key :
    (own at key s : Text)
    → same_bytes own at ≡ false
    → same_bytes own key ≡ true
    → same_bytes at key ≡ false
other_key own at key s h g = elim (Bool-cases (same_bytes at key)) [
  | inr e ↦ e
  | inl e ↦
      clash (same_bytes_refl own)
        (ap (same_bytes own) (same_bytes→eq own key g ∙ sym (same_bytes→eq at key e)) ∙ h)
]

responds-extend :
    (es : List ForwarderEntry) (x : ExtraEntry) (key s : Text)
    → responds (extend es x) key s
      ≡ responds es key s
        || (same_bytes (to_lower_case x.address) key && has (map to_lower_case x.selectors) s)
unfolding extend has
responds-extend [] x key s = elim (Bool-cases (same_bytes (to_lower_case x.address) key)) [
  | inl e ↦ rw e (has-add_all [] (map to_lower_case x.selectors) s)
  | inr e ↦ rw e refl
]
responds-extend (e ∷ es) x key s =
    let at = to_lower_case x.address in
    elim (Bool-cases (same_bytes e.address at)) [
      | inl h ↦ elim (Bool-cases (same_bytes e.address key)) [
        | inl g ↦
            rw (h, sym (same_bytes→eq e.address at h), g)
              (has-add_all e.selectors (map to_lower_case x.selectors) s)
        | inr g ↦ rw (h, sym (same_bytes→eq e.address at h), g) (sym (or_false (responds es key s)))
      ]
      | inr h ↦ elim (Bool-cases (same_bytes e.address key)) [
        | inl g ↦ rw (h, g, other_key e.address at key s h g) (sym (or_false (has e.selectors s)))
        | inr g ↦ rw (h, g) (responds-extend es x key s)
      ]
    ]

responds-extend_all :
    (es : List ForwarderEntry) (extra : List ExtraEntry) (key s : Text)
    → responds (extend_all es extra) key s ≡ responds es key s || lists extra key s
unfolding extend_all
responds-extend_all es [] key s = sym (or_false (responds es key s))
responds-extend_all es (x ∷ xs) key s =
    responds-extend_all (extend es x) xs key s
    ∙ ap (λ b. b || lists xs key s) (responds-extend es x key s)
    ∙ or_assoc (responds es key s) _ (lists xs key s)

-- Which selectors the three known addresses respond to.
abbrev pub known : Abi → Text → Text → Bool
known abi key s =
    (any (λ a. same_bytes a key) (agent ∷ token_manager ∷ voting ∷ [])
      && same_bytes abi.forward_selector s)
    || (same_bytes agent key && same_bytes abi.execute_selector s)

responds-default_entries :
    (abi : Abi) (key s : Text) → responds (default_entries abi) key s ≡ known abi key s
unfolding has
responds-default_entries abi key s = elim (Bool-cases (same_bytes agent key)) [
  | inl a ↦
      rw a (or_assoc_false (same_bytes abi.forward_selector s) (same_bytes abi.execute_selector s))
  | inr a ↦ elim (Bool-cases (same_bytes token_manager key)) [
    | inl b ↦ rw (a, b) refl
    | inr b ↦ elim (Bool-cases (same_bytes voting key)) [
      | inl c ↦ rw (a, b, c) refl
      | inr c ↦ rw (a, b, c) refl
    ]
  ]
]
  where
    or_assoc_false : (f x : Bool) → f || (x || false) ≡ f || x
    or_assoc_false true true = refl
    or_assoc_false true false = refl
    or_assoc_false false true = refl
    or_assoc_false false false = refl

-- An address responds to a selector exactly if it is one of the three known addresses and the selector
-- is `forward`, or it is the Agent and the selector is `execute`, or some extra entry lists the two;
-- letters' case does not matter.
pub create_forwarder_registry-responds :
    (abi : Abi) (extra : List ExtraEntry) (key s : Text)
    → responds (create_forwarder_registry abi extra) key s ≡ known abi key s || lists extra key s
create_forwarder_registry-responds abi extra key s =
    responds-extend_all (default_entries abi) extra key s
    ∙ ap (λ b. b || lists extra key s) (responds-default_entries abi key s)
