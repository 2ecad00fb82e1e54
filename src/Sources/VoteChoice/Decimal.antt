-- ===== src/Sources/VoteChoice/Decimal.antt =====
-- The text of a weight denotes just the number it was made of.
use kvorum.Base.{
  ◌==◌, ==_iff, Bool-cases, length, length-append, ℕ, zero, suc, ◌+◌, ◌*◌, ◌/◌, ◌%◌, ◌<◌, ◌≡◌, refl,
  sym, ap, ◌∙◌, inl, inr, List, [], ◌∷◌, ◌++◌, arith,
}
use kvorum.Sources.VoteChoice.{
  scale, padded_digits, strip_digit, strip_zeros, format_scaled, Weight,
}
use native.Mathlib.Nat.{mul_left_comm}

abbrev pub pow10 : ℕ → ℕ
pow10 zero = 1
pow10 (suc k) = 10 * pow10 k

-- What the first digits behind the point are worth, with the last place worth one.
abbrev pub places_value : ℕ → List ℕ → ℕ
places_value k [] = 0
places_value zero (d ∷ ds) = 0
places_value (suc k) (d ∷ ds) = d * pow10 k + places_value k ds

-- What a weight is worth in units of its eighteenth place.
abbrev pub weight_value : Weight → ℕ
weight_value w = w.whole * scale + places_value 18 w.fraction

places_value-append :
    (k : ℕ) (ds : List ℕ) (d : ℕ)
    → length ds ≡ k
    → places_value (suc k) (ds ++ (d ∷ [])) ≡ 10 * places_value k ds + d
places_value-append zero [] d h = omega arith
places_value-append (suc k) [] d h = ground arith
places_value-append zero (x ∷ ds) d h = ground arith
places_value-append (suc k) (x ∷ ds) d h =
    omega (arith, places_value-append k ds d (omega arith), mul_left_comm x 10 (pow10 k))

length-padded_digits : (k n : ℕ) → length (padded_digits k n) ≡ k
unfolding padded_digits
length-padded_digits zero n = refl
length-padded_digits (suc k) n =
    omega (
      arith,
      length-append (padded_digits k (n / 10)) (n % 10 ∷ []),
      length-padded_digits k (n / 10),
    )

places_value-padded_digits : (k n : ℕ) → n < pow10 k → places_value k (padded_digits k n) ≡ n
unfolding padded_digits
places_value-padded_digits zero n h = omega arith
places_value-padded_digits (suc k) n h = omega (
  arith,
  places_value-append k (padded_digits k (n / 10)) (n % 10) (length-padded_digits k (n / 10)),
  places_value-padded_digits k (n / 10) (omega arith),
)

places_value-strip_digit :
    (k d : ℕ) (ds : List ℕ)
    → places_value (suc k) (strip_digit d ds) ≡ d * pow10 k + places_value k ds
unfolding strip_digit
places_value-strip_digit k d [] = elim (Bool-cases (d == 0)) [
  | inr e ↦ rw e refl
  | inl e ↦
      let z = (==_iff d 0).0 e in rw e (sym (ap (λ n. n * pow10 k + 0) z ∙ zero_product (pow10 k)))
]
  where
    zero_product : (p : ℕ) → 0 * p + 0 ≡ 0
    zero_product p = omega arith
places_value-strip_digit k d (x ∷ xs) = refl

no_places : (ds : List ℕ) → places_value 0 ds ≡ 0
no_places [] = refl
no_places (d ∷ ds) = refl

places_value-strip_zeros :
    (k : ℕ) (ds : List ℕ) → places_value k (strip_zeros ds) ≡ places_value k ds
unfolding strip_zeros
places_value-strip_zeros k [] = refl
places_value-strip_zeros zero (d ∷ ds) = no_places (strip_digit d (strip_zeros ds))
places_value-strip_zeros (suc k) (d ∷ ds) =
    places_value-strip_digit k d (strip_zeros ds)
    ∙ ap (λ n. d * pow10 k + n) (places_value-strip_zeros k ds)

-- The decimal text of a scaled weight, read back, is the scaled weight.
pub weight_value-format_scaled : (s : ℕ) → weight_value (format_scaled s) ≡ s
unfolding format_scaled
weight_value-format_scaled s = elim (Bool-cases (s % scale == 0)) [
  | inl e ↦ rw (e, format_scaled) (ground arith)
  | inr e ↦
      rw (e, format_scaled)
        (ap (λ n. s / scale * scale + n)
            (places_value-strip_zeros 18 (padded_digits 18 (s % scale))
              ∙ places_value-padded_digits 18 (s % scale) (omega arith))
          ∙ omega arith)
]
