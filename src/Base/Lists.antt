-- ===== src/Base/Lists.antt =====
-- Lists measured by native numbers, filtered by Boolean tests, and predicates on all their items.
use Prim.Native.Nat.{ℕ, zero, suc, ◌+◌, ◌≤◌}
use mathlib.Core.Path.{◌≡◌, refl, ap, sym, subst, ◌∙◌}
use mathlib.Core.Bool.{Bool, true, false, ◌||◌}
use mathlib.Core.List.{List, [], ◌∷◌, ◌++◌, Memᴰ}
use mathlib.Core.Option.{Option, none, some}
use native.Mathlib.Omega.{arith}
use kvorum.Base.Tests.{if◌then◌else◌, Bool-cases, get_or_default, Option-clash}
use mathlib.Core.Logic.{inl, inr}

module _ {ℓ} {A : Type ℓ} where
  abbrev pub length : List A → ℕ
  length [] = 0
  length (x ∷ xs) = suc (length xs)

  abbrev pub take : ℕ → List A → List A
  take zero xs = []
  take (suc n) [] = []
  take (suc n) (x ∷ xs) = x ∷ take n xs

  abbrev pub drop : ℕ → List A → List A
  drop zero xs = xs
  drop (suc n) [] = []
  drop (suc n) (x ∷ xs) = drop n xs

  -- The items that pass a Boolean test, in order.
  abbrev pub keep : (A → Bool) → List A → List A
  keep p [] = []
  keep p (x ∷ xs) = let rest = keep p xs in if p x then x ∷ rest else rest

  -- The first item that passes a test.
  abbrev pub find : (A → Bool) → List A → Option A
  find p [] = none
  find p (x ∷ xs) = let rest = find p xs in if p x then some x else rest

  abbrev pub any : (A → Bool) → List A → Bool
  any p [] = false
  any p (x ∷ xs) = p x || any p xs

  abbrev pub concat : List (List A) → List A
  concat [] = []
  concat (xs ∷ xss) = xs ++ concat xss

  abbrev pub All {κ} : (A → Type κ) → List A → Type κ
  All P [] = Unit
  All P (x ∷ xs) = P x × All P xs

module _ {ℓ} {A : Type ℓ} where
  pub length-append : (xs ys : List A) → length (xs ++ ys) ≡ length xs + length ys
  length-append [] ys = omega arith
  length-append (x ∷ xs) ys = omega (arith, length-append xs ys)

  pub length-keep-le : (p : A → Bool) (xs : List A) → length (keep p xs) ≤ length xs
  length-keep-le p [] = omega arith
  length-keep-le p (x ∷ xs) = ground (arith, length-keep-le p xs)

  pub All-append {κ} : (P : A → Type κ) (xs ys : List A) → All P xs → All P ys → All P (xs ++ ys)
  All-append P [] ys hx hy = hy
  All-append P (x ∷ xs) ys hx hy = (hx.0, All-append P xs ys hx.1 hy)

  pub keep-append : (p : A → Bool) (xs ys : List A) → keep p (xs ++ ys) ≡ keep p xs ++ keep p ys
  keep-append p [] ys = refl
  keep-append p (x ∷ xs) ys = ground (arith, keep-append p xs ys)

  mem_keep_clause :
      (p : A → Bool) (x : A) (b : Bool) (xs rest : List A) {a : A}
      → p x ≡ b
      → (Memᴰ a rest → Memᴰ a xs × (p a ≡ true))
      → Memᴰ a (if b then x ∷ rest else rest)
      → Memᴰ a (x ∷ xs) × (p a ≡ true)
  mem_keep_clause p x true xs rest e ih (Memᴰ.head h) = (Memᴰ.head h, ap p h ∙ e)
  mem_keep_clause p x true xs rest e ih (Memᴰ.tail m) = (Memᴰ.tail (ih m).0, (ih m).1)
  mem_keep_clause p x false xs rest e ih m = (Memᴰ.tail (ih m).0, (ih m).1)

  pub mem-keep :
      (p : A → Bool) (xs : List A) {a : A} → Memᴰ a (keep p xs) → Memᴰ a xs × (p a ≡ true)
  mem-keep p [] m = elim m [ ]
  mem-keep p (x ∷ xs) {a} m =
      mem_keep_clause p x (p x) xs (keep p xs) refl (mem-keep p xs {a = a}) m

  pub keep-mem : (p : A → Bool) (xs : List A) {a : A} → p a ≡ true → Memᴰ a xs → Memᴰ a (keep p xs)
  keep-mem p [] e m = elim m [ ]
  keep-mem p (x ∷ xs) {a} e (Memᴰ.head h) =
      subst (λ (b : Bool). Memᴰ a (if b then x ∷ keep p xs else keep p xs)) (sym e ∙ ap p h)
        (Memᴰ.head h)
  keep-mem p (x ∷ xs) {a} e (Memᴰ.tail m) = keep_tail (p x) x (keep-mem p xs {a = a} e m)
    where
      keep_tail : (b : Bool) (y : A) {ys : List A} → Memᴰ a ys → Memᴰ a (if b then y ∷ ys else ys)
      keep_tail true y n = Memᴰ.tail n
      keep_tail false y n = n

  pub All-map {κ μ} :
      {P : A → Type κ} {Q : A → Type μ}
      → ((x : A) → P x → Q x)
      → (xs : List A) → All P xs
      → All Q xs
  All-map f [] h = tt
  All-map f (x ∷ xs) h = (f x h.0, All-map f xs h.1)

  pub All-keep {κ} :
      (P : A → Type κ) (p : A → Bool) (xs : List A)
      → All (λ x. p x ≡ true → P x) xs
      → All P (keep p xs)
  All-keep P p [] h = h
  All-keep P p (x ∷ xs) h = elim (Bool-cases (p x)) [
    | inl e ↦ rw e (h.0 e, All-keep P p xs h.1)
    | inr e ↦ rw e (All-keep P p xs h.1)
  ]

  pub All-mem {κ} : (P : A → Type κ) (xs : List A) {a : A} → All P xs → Memᴰ a xs → P a
  All-mem P [] h m = elim m [ ]
  All-mem P (x ∷ xs) h (Memᴰ.head e) = subst P (sym e) h.0
  All-mem P (x ∷ xs) h (Memᴰ.tail m) = All-mem P xs h.1 m

  pub All-split {κ} : (P : A → Type κ) (xs ys : List A) → All P (xs ++ ys) → All P xs × All P ys
  All-split P [] ys h = (tt, h)
  All-split P (x ∷ xs) ys h = let r = All-split P xs ys h.1 in ((h.0, r.0), r.1)

  pub All-concat {κ} : (P : A → Type κ) (xss : List (List A)) → All P (concat xss) → All (All P) xss
  All-concat P [] h = tt
  All-concat P (xs ∷ xss) h = let r = All-split P xs (concat xss) h in (r.0, All-concat P xss r.1)

  pub All-find {κ} :
      (P : A → Type κ) (p : A → Bool) (xs : List A) {a : A} → All P xs → find p xs ≡ some a → P a
  All-find P p [] {a} h e = Option-clash e
  All-find P p (x ∷ xs) {a} h e = find_clause (p x) (find p xs) h.0 (All-find P p xs h.1) e
    where
      find_clause :
          (b : Bool) (o : Option A)
          → P x
          → (o ≡ some a → P a)
          → (if b then some x else o) ≡ some a
          → P a
      find_clause true o hx ih e = subst P (ap (λ (u : Option A). get_or_default u x) e) hx
      find_clause false o hx ih e = ih e
