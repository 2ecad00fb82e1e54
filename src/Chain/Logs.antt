-- ===== src/Chain/Logs.antt =====
-- The answers to `eth_getLogs` and their decoding, which range-fetcher.ts and event-poller.ts share.
-- `decodeLogEvent` is a parameter of both.
use kvorum.Base.{
  ltb, ltb→lt, Bool-cases, ℕ, zero, suc, ◌+◌, ◌≤◌, ◌<◌, ◌≡◌, refl, sym, ap, ◌∙◌, subst, ◌⊎◌, inl,
  inr, false, Option, none, some, List, [], ◌∷◌, ◌++◌, append_assoc, Memᴰ, arith,
}

-- The answer to one `eth_getLogs`: the logs, an error that `isTooManyResults`, or another one.
pub data Fetched (Log : Type 0) : Type 0 where
  logs : List Log → Fetched Log
  too_many_results : Fetched Log
  send_failed : Fetched Log

abbrev pub decoded : {Event : Type 0} → Option Event → List Event → List Event
decoded none es = es
decoded (some e) es = e ∷ es

module _ {Log Event : Type 0} where
  -- The logs that decode, in order; a malformed one is dropped.
  unfoldable pub decode_all : (Log → Option Event) → List Log → List Event
  decode_all decode [] = []
  decode_all decode (l ∷ ls) = decoded (decode l) (decode_all decode ls)

-- The logs of `n` blocks from a block on.
abbrev pub logs_from : {Log : Type 0} → (ℕ → List Log) → ℕ → ℕ → List Log
logs_from blocks from zero = []
logs_from blocks from (suc n) = blocks from ++ logs_from blocks (suc from) n

pub logs_from_cong :
    {Log : Type 0} (blocks : ℕ → List Log) {a b m n : ℕ}
    → a ≡ b
    → m ≡ n
    → logs_from blocks a m ≡ logs_from blocks b n
logs_from_cong blocks p q = λ i. logs_from blocks (p i) (q i)

pub logs_from-split :
    {Log : Type 0} (blocks : ℕ → List Log) (from m n : ℕ)
    → logs_from blocks from (m + n) ≡ logs_from blocks from m ++ logs_from blocks (from + m) n
logs_from-split blocks from zero n =
    logs_from_cong blocks {a = from} {b = from + 0} {m = 0 + n} {n = n} (omega arith) (omega arith)
logs_from-split blocks from (suc m) n =
    logs_from_cong blocks {a = from} {b = from} {m = suc m + n} {n = suc (m + n)} refl (omega arith)
    ∙ ap (λ rest. blocks from ++ rest) (logs_from-split blocks (suc from) m n)
    ∙ sym (append_assoc (blocks from) _ _)
    ∙ ap (λ l. (blocks from ++ logs_from blocks (suc from) m) ++ l)
        (logs_from_cong blocks {a = suc from + m} {b = from + suc m} {m = n} {n = n} (omega arith)
          refl)

pub decode_all-append :
    {Log Event : Type 0} (decode : Log → Option Event) (xs ys : List Log)
    → decode_all decode (xs ++ ys) ≡ decode_all decode xs ++ decode_all decode ys
unfolding decode_all
decode_all-append decode [] ys = refl
decode_all-append decode (x ∷ xs) ys = ground (arith, decode_all-append decode xs ys)

pub Mem-append : {A : Type 0} (xs ys : List A) {a : A} → Memᴰ a (xs ++ ys) → Memᴰ a xs ⊎ Memᴰ a ys
Mem-append [] ys m = inr m
Mem-append (x ∷ xs) ys (Memᴰ.head e) = inl (Memᴰ.head e)
Mem-append (x ∷ xs) ys {a} (Memᴰ.tail m) = elim (Mem-append xs ys {a = a} m) [
  | inl l ↦ inl (Memᴰ.tail l)
  | inr r ↦ inr r
]

pub Mem-left : {A : Type 0} (xs ys : List A) {a : A} → Memᴰ a xs → Memᴰ a (xs ++ ys)
Mem-left [] ys m = elim m [ ]
Mem-left (x ∷ xs) ys (Memᴰ.head e) = Memᴰ.head e
Mem-left (x ∷ xs) ys {a} (Memᴰ.tail m) = Memᴰ.tail (Mem-left xs ys {a = a} m)

pub Mem-right : {A : Type 0} (xs ys : List A) {a : A} → Memᴰ a ys → Memᴰ a (xs ++ ys)
Mem-right [] ys m = m
Mem-right (x ∷ xs) ys {a} m = Memᴰ.tail (Mem-right xs ys {a = a} m)

module _ {Log Event : Type 0} (decode : Log → Option Event) (blocks : ℕ → List Log) where
  -- An event of a block behind `b` and up to `top`.
  pub record Within (b top : ℕ) (e : Event) : Type 0 where
    pub block : ℕ
    pub behind : b < block
    pub up_to : block ≤ top
    pub of_block : Memᴰ e (decode_all decode (blocks block))

  pub logs_from-Within :
      (b n : ℕ) (e : Event)
      → Memᴰ e (decode_all decode (logs_from blocks (b + 1) n))
      → Within b (b + n) e
  logs_from-Within b zero e m = absurd (unfold decode_all in elim m [ ])
  logs_from-Within b (suc n) e m =
      elim (Mem-append (decode_all decode (blocks (b + 1))) _ {a = e} (
        subst (Memᴰ e)
          (decode_all-append decode (blocks (b + 1)) (logs_from blocks (suc (b + 1)) n)) m)) [
            | inl l ↦ record {
              block = b + 1;
              behind = omega arith;
              up_to = omega arith;
              of_block = l;
            }
            | inr r ↦
                let i = logs_from-Within (suc b) n e (
                  subst (λ k. Memᴰ e (decode_all decode (logs_from blocks k n))) {x = suc (b + 1)}
                    {y = suc b + 1} (omega arith) r) in
                record {
                  block = i.block;
                  behind = omega (arith, i.behind);
                  up_to = omega (arith, i.up_to);
                  of_block = i.of_block;
                }
          ]

  pub Within-logs_from :
      (b n : ℕ) (e : Event)
      → Within b (b + n) e
      → Memᴰ e (decode_all decode (logs_from blocks (b + 1) n))
  Within-logs_from b zero e i = absurd (omega (arith, i.behind, i.up_to))
  Within-logs_from b (suc n) e i =
      subst (Memᴰ e)
        (sym (decode_all-append decode (blocks (b + 1)) (logs_from blocks (suc (b + 1)) n)))
        (elim (Bool-cases (ltb (b + 1) i.block)) [
          | inl h ↦ Mem-right (decode_all decode (blocks (b + 1))) _ {a = e} (
              subst (λ k. Memᴰ e (decode_all decode (logs_from blocks k n))) {x = suc b + 1}
                {y = suc (b + 1)} (omega arith)
                (Within-logs_from (suc b) n e (record {
                  block = i.block;
                  behind = omega (arith, ltb→lt (b + 1) i.block h);
                  up_to = omega (arith, i.up_to);
                  of_block = i.of_block;
                })))
          | inr h ↦ Mem-left (decode_all decode (blocks (b + 1))) _ {a = e} (
              subst (λ k. Memᴰ e (decode_all decode (blocks k))) {x = i.block} {y = b + 1}
                (first_block i.block i.behind h) i.of_block)
        ])
    where
      first_block : (k : ℕ) → b < k → ltb (b + 1) k ≡ false → k ≡ b + 1
      first_block k l h = ground arith
