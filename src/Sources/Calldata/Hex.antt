-- ===== src/Sources/Calldata/Hex.antt =====
-- Hexadecimal texts and bytes, as Node's Buffer and JavaScript's strings give them to the decoders
-- of libs/sources/core/src/calldata. A text is the list of its character codes.
use kvorum.Base.{
  ltb, leb, ◌==◌, if◌then◌else◌, ==_iff, clash, and_true, length, All, ℕ, ◌+◌, ◌-◌, ◌*◌, ◌/◌, ◌%◌,
  ◌<◌, ◌≡◌, refl, Bool, true, false, ◌&&◌, ◌||◌, List, [], ◌∷◌, map, arith,
}

-- A text, by the codes of its characters.
abbrev pub Text : Type 0
Text = List ℕ

abbrev pub IsByte : ℕ → Type 0
IsByte b = b < 256

abbrev digit_char : ℕ → ℕ
digit_char d = if ltb d 10 then 48 + d else 87 + d

abbrev pub is_hex_digit : ℕ → Bool
is_hex_digit c = (leb 48 c && leb c 57) || (leb 65 c && leb c 70) || (leb 97 c && leb c 102)

abbrev digit_value : ℕ → ℕ
digit_value c = if leb c 57 then c - 48 else if leb c 70 then c - 55 else c - 87

-- `toString('hex')`.
unfoldable pub to_hex : List ℕ → Text
to_hex [] = []
to_hex (b ∷ bs) = digit_char (b / 16) ∷ digit_char (b % 16) ∷ to_hex bs

-- `Buffer.from(raw, 'hex')` of an even number of digits.
unfoldable pub from_hex : Text → List ℕ
from_hex [] = []
from_hex (c ∷ []) = []
from_hex (c ∷ d ∷ rest) = (digit_value c * 16 + digit_value d) ∷ from_hex rest

-- `toLowerCase` of an ASCII text.
abbrev lower_char : ℕ → ℕ
lower_char c = if leb 65 c && leb c 90 then c + 32 else c

unfoldable pub to_lower_case : Text → Text
to_lower_case = map lower_char

-- `'0x' + text`.
abbrev pub with_prefix : Text → Text
with_prefix text = 48 ∷ 120 ∷ text

unfoldable pub all_hex : Text → Bool
all_hex [] = true
all_hex (c ∷ rest) = is_hex_digit c && all_hex rest

unfoldable pub same_bytes : List ℕ → List ℕ → Bool
same_bytes [] [] = true
same_bytes [] (y ∷ ys) = false
same_bytes (x ∷ xs) [] = false
same_bytes (x ∷ xs) (y ∷ ys) = (x == y) && same_bytes xs ys

digit_char-hex : (d : ℕ) → d < 16 → is_hex_digit (digit_char d) ≡ true
digit_char-hex d h = ground arith

digit_value-digit_char : (d : ℕ) → d < 16 → digit_value (digit_char d) ≡ d
digit_value-digit_char d h = ground arith

lower_char-digit_char : (d : ℕ) → d < 16 → lower_char (digit_char d) ≡ digit_char d
lower_char-digit_char d h = ground arith

high_digit : (b : ℕ) → b < 256 → b / 16 < 16
high_digit b h = omega arith

low_digit : (b : ℕ) → b % 16 < 16
low_digit b = omega arith

byte_digits : (b : ℕ) → b / 16 * 16 + b % 16 ≡ b
byte_digits b = omega arith

pub from_hex-to_hex : (bs : List ℕ) → All IsByte bs → from_hex (to_hex bs) ≡ bs
unfolding from_hex to_hex
from_hex-to_hex [] h = refl
from_hex-to_hex (b ∷ bs) h =
    rw
      (
        digit_value-digit_char (b / 16) (high_digit b h.0),
        digit_value-digit_char (b % 16) (low_digit b),
        byte_digits b,
        from_hex-to_hex bs h.1,
      )
      refl

pub to_hex-hex : (bs : List ℕ) → All IsByte bs → all_hex (to_hex bs) ≡ true
unfolding all_hex to_hex
to_hex-hex [] h = refl
to_hex-hex (b ∷ bs) h =
    rw
      (
        digit_char-hex (b / 16) (high_digit b h.0),
        digit_char-hex (b % 16) (low_digit b),
        to_hex-hex bs h.1,
      )
      refl

pub to_lower_case-to_hex : (bs : List ℕ) → All IsByte bs → to_lower_case (to_hex bs) ≡ to_hex bs
unfolding to_lower_case to_hex
to_lower_case-to_hex [] h = refl
to_lower_case-to_hex (b ∷ bs) h =
    rw
      (
        lower_char-digit_char (b / 16) (high_digit b h.0),
        lower_char-digit_char (b % 16) (low_digit b),
        to_lower_case-to_hex bs h.1,
      )
      refl

pub length-to_hex : (bs : List ℕ) → length (to_hex bs) ≡ 2 * length bs
unfolding to_hex
length-to_hex [] = refl
length-to_hex (b ∷ bs) = omega (arith, length-to_hex bs)

value_bound : (c : ℕ) → is_hex_digit c ≡ true → digit_value c < 16
value_bound c h = ground arith

-- The bytes of a text of hexadecimal digits are less than 256.
pub from_hex-IsByte : (t : Text) → all_hex t ≡ true → All IsByte (from_hex t)
unfolding from_hex all_hex
from_hex-IsByte [] h = tt
from_hex-IsByte (c ∷ []) h = tt
from_hex-IsByte (c ∷ d ∷ rest) h =
    let (x, y) = and_true (is_hex_digit c) (is_hex_digit d && all_hex rest) h in
    let (y, z) = and_true (is_hex_digit d) (all_hex rest) y in
    (
      two_digits (digit_value c) (digit_value d) (value_bound c x) (value_bound d y),
      from_hex-IsByte rest z,
    )
  where
    two_digits : (a b : ℕ) → a < 16 → b < 16 → a * 16 + b < 256
    two_digits a b h k = omega arith

pub cons_eq : {x y : ℕ} {xs ys : List ℕ} → x ≡ y → xs ≡ ys → x ∷ xs ≡ y ∷ ys
cons_eq e f = rw (e, f) refl

pub same_bytes→eq : (xs ys : List ℕ) → same_bytes xs ys ≡ true → xs ≡ ys
unfolding same_bytes
same_bytes→eq [] [] h = refl
same_bytes→eq [] (y ∷ ys) h = clash h refl
same_bytes→eq (x ∷ xs) [] h = clash h refl
same_bytes→eq (x ∷ xs) (y ∷ ys) h =
    let (e, f) = and_true (x == y) (same_bytes xs ys) h in
    cons_eq ((==_iff x y).0 e) (same_bytes→eq xs ys f)

pub same_bytes_refl : (xs : List ℕ) → same_bytes xs xs ≡ true
unfolding same_bytes
same_bytes_refl [] = refl
same_bytes_refl (x ∷ xs) = rw ((==_iff x x).1 refl, same_bytes_refl xs) refl
