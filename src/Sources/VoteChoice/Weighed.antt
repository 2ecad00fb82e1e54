-- ===== src/Sources/VoteChoice/Weighed.antt =====
-- The choices that weighing some entries gives.
use kvorum.Base.{
  ◌==◌, Bool-cases, All, All-map, ℕ, ◌+◌, ◌-◌, ◌*◌, ◌≤◌, ◌<◌, ◌≡◌, refl, sym, ap, ◌∙◌, subst, inl,
  inr, List, [], ◌∷◌, map, arith,
}
use kvorum.Sources.VoteChoice.{
  decoded, undecodable, scale, sort_entries, total_raw, sum, add_residue, scaled_weights,
  zip_choices, with_primary, weigh, DecodedChoice, VoteChoiceDecode, Entry,
}
use kvorum.Sources.VoteChoice.Decimal.{weight_value, weight_value-format_scaled}
use kvorum.Sources.VoteChoice.Shares.{
  share, total_raw-sort_entries, sum-shares-le-scale, sum-add_residue, Falling, sort_entries-All,
  sort_entries-Falling,
}
use native.Mathlib.Nat.{div-mul-le_self, mul-le-mul_right, le-div_iff_mul-le}

share-monotone :
    (total : ℕ) (x e : Entry) → 0 < total → x.raw ≤ e.raw → share total x ≤ share total e
share-monotone total x e pos h =
    (le-div_iff_mul-le pos).1
      (omega (arith, div-mul-le_self (x.raw * scale) total, mul-le-mul_right scale h))

-- Every choice is one of the options, the primary choice is the first, and none weighs more.
abbrev pub IsBallot : ℕ → VoteChoiceDecode → Type 0
IsBallot choice_count undecodable = Unit
IsBallot choice_count (decoded primary []) = ⊥
IsBallot choice_count (decoded primary (c ∷ cs)) =
    (primary ≡ c.choice_index)
    × All (λ (x : DecodedChoice). x.choice_index < choice_count) (c ∷ cs)
    × All (λ (x : DecodedChoice). weight_value x.weight ≤ weight_value c.weight) cs

-- The weights are together exactly one.
abbrev pub IsWhole : VoteChoiceDecode → Type 0
IsWhole undecodable = Unit
IsWhole (decoded primary cs) = sum (map (λ (c : DecodedChoice). weight_value c.weight) cs) ≡ scale

zip_choices-indices :
    (choice_count : ℕ) (es : List Entry) (ss : List ℕ)
    → All (λ (e : Entry). e.index < choice_count) es
    → All (λ (x : DecodedChoice). x.choice_index < choice_count) (zip_choices es ss)
unfolding zip_choices
zip_choices-indices choice_count [] ss h = tt
zip_choices-indices choice_count (e ∷ es) [] h = tt
zip_choices-indices choice_count (e ∷ es) (s ∷ ss) h =
    (h.0, zip_choices-indices choice_count es ss h.1)

zip_choices-sum :
    (total : ℕ) (es : List Entry)
    → sum
        (map (λ (c : DecodedChoice). weight_value c.weight) (zip_choices es (map (share total) es)))
      ≡ sum (map (share total) es)
unfolding zip_choices sum
zip_choices-sum total [] = refl
zip_choices-sum total (e ∷ es) =
    omega (arith, weight_value-format_scaled (share total e), zip_choices-sum total es)

zip_choices-weights :
    (total bound : ℕ) (es : List Entry)
    → All (λ (e : Entry). share total e ≤ bound) es
    → All
        (λ (x : DecodedChoice). weight_value x.weight ≤ bound)
        (zip_choices es (map (share total) es))
unfolding zip_choices
zip_choices-weights total bound [] h = tt
zip_choices-weights total bound (e ∷ es) h = (
  omega (arith, weight_value-format_scaled (share total e), h.0),
  zip_choices-weights total bound es h.1,
)

weighed :
    (choice_count : ℕ) (es : List Entry)
    → 0 < total_raw es
    → Falling es
    → All (λ (e : Entry). e.index < choice_count) es
    → let d = with_primary (zip_choices es (scaled_weights (total_raw es) es)) in
      IsBallot choice_count d × IsWhole d
unfolding total_raw scaled_weights add_residue zip_choices with_primary sum
weighed choice_count [] pos f h = ground arith
weighed choice_count (e ∷ es) pos f h =
    let total = e.raw + total_raw es in
    let first = share total e + (scale - sum (share total e ∷ map (share total) es)) in
    let value = weight_value-format_scaled first in
    (
      (
        refl,
        (h.0, zip_choices-indices choice_count es (map (share total) es) h.1),
        zip_choices-weights total _ es (
            All-map
              (λ (x : Entry) le.
                subst (λ n. share total x ≤ n) (sym value)
                  (omega (arith, share-monotone total x e pos le)))
              es f.0),
      ),
      ap
            (λ n.
              n
              + sum (
                  map (λ (c : DecodedChoice). weight_value c.weight)
                    (zip_choices es (map (share total) es))))
            value
          ∙ ap (λ n. first + n) (zip_choices-sum total es)
          ∙ sum-add_residue (share total e) (map (share total) es)
              (sum-shares-le-scale (e ∷ es) pos),
    )

pub weigh-IsBallot :
    (choice_count : ℕ) (es : List Entry)
    → All (λ (e : Entry). e.index < choice_count) es
    → IsBallot choice_count (weigh es) × IsWhole (weigh es)
unfolding weigh
weigh-IsBallot choice_count es h = elim (Bool-cases (total_raw es == 0)) [
  | inl e ↦ rw (e, weigh) (tt, tt)
  | inr e ↦
      rw (e, weigh, sym (total_raw-sort_entries es))
        (weighed choice_count (sort_entries es) (ground (arith, total_raw-sort_entries es))
          (sort_entries-Falling es) (sort_entries-All (λ (x : Entry). x.index < choice_count) es h))
]
