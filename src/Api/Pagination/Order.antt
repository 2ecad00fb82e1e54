-- ===== src/Api/Pagination/Order.antt =====
-- The order of sort keys, of apps/api/src/pagination/cursor.ts.
use kvorum.Base.{clash, String, ◌≡◌, refl, sym, ap, ◌∙◌, Bool, true, false, arith}
use kvorum.Api.Pagination.{
  opposite, then_by, in_direction, number_sign, compare_cursor_values, compare_sort_keys,
  CursorType, Direction, SortKey, Sign, Codec, time, numeric, bigint, asc, desc, less, same, more,
}

-- Swapped arguments give the opposite sign, `less` is transitive, and equals compare alike.
pub record IsOrder {A : Type 0} (cmp : A → A → Sign) : Type 0 where
  pub swap : (a b : A) → cmp b a ≡ opposite (cmp a b)
  pub less_trans : (a b c : A) → cmp a b ≡ less → cmp b c ≡ less → cmp a c ≡ less
  pub same_left : (a b c : A) → cmp a b ≡ same → cmp a c ≡ cmp b c

number_sign-IsOrder : IsOrder number_sign
number_sign-IsOrder = record {
  swap = λ a b. ground arith;
  less_trans = λ a b c h k. ground (arith, h, k);
  same_left = λ a b c h. ground (arith, h);
}

abbrev is_less : Sign → Bool
is_less less = true
is_less same = false
is_less more = false

more-less : {B : Type 0} → more ≡ less → B
more-less e = clash (ap is_less e) refl

same-less : {B : Type 0} → same ≡ less → B
same-less e = clash (ap is_less e) refl

abbrev pub is_same : Sign → Bool
is_same less = false
is_same same = true
is_same more = false

opposite-opposite : (s : Sign) → opposite (opposite s) ≡ s
opposite-opposite less = refl
opposite-opposite same = refl
opposite-opposite more = refl

lex-less :
    (ab bc ac u v w : Sign)
    → (ab ≡ less → bc ≡ less → ac ≡ less)
    → (ab ≡ same → ac ≡ bc)
    → (bc ≡ same → ac ≡ ab)
    → (u ≡ less → v ≡ less → w ≡ less)
    → then_by ab u ≡ less
    → then_by bc v ≡ less
    → then_by ac w ≡ less
lex-less less less ac u v w p q r t h k = rw (p refl refl) refl
lex-less less same ac u v w p q r t h k = rw (r refl) refl
lex-less less more ac u v w p q r t h k = more-less k
lex-less same less ac u v w p q r t h k = rw (q refl) refl
lex-less same same ac u v w p q r t h k = rw (q refl) (t h k)
lex-less same more ac u v w p q r t h k = more-less k
lex-less more bc ac u v w p q r t h k = more-less h

lex-same :
    (ab bc ac u v w : Sign)
    → (ab ≡ same → ac ≡ bc)
    → (u ≡ same → w ≡ v)
    → then_by ab u ≡ same
    → then_by ac w ≡ then_by bc v
lex-same less bc ac u v w q t h = clash refl (ap is_less h)
lex-same same bc ac u v w q t h = rw (q refl, t h) refl
lex-same more bc ac u v w q t h = clash (ap is_same h) refl

lex-swap : (ab u : Sign) → then_by (opposite ab) (opposite u) ≡ opposite (then_by ab u)
lex-swap less u = refl
lex-swap same u = refl
lex-swap more u = refl

module _ {A : Type 0} (f : A → A → Sign) (F : IsOrder f) where
  pub IsOrder-refl : (a : A) → f a a ≡ same
  IsOrder-refl a = self (f a a) (F.swap a a)
    where
      self : (s : Sign) → s ≡ opposite s → s ≡ same
      self less e = clash refl (ap is_less e)
      self same e = refl
      self more e = more-less e

  same_right : (a b c : A) → f b c ≡ same → f a c ≡ f a b
  same_right a b c h =
      F.swap c a ∙ ap opposite (F.same_left c b a (F.swap b c ∙ ap opposite h)) ∙ sym (F.swap b a)

  pub then_by-IsOrder : (g : A → A → Sign) → IsOrder g → IsOrder (λ a b. then_by (f a b) (g a b))
  then_by-IsOrder g G = record {
    swap = λ a b. rw (F.swap a b, G.swap a b) (lex-swap (f a b) (g a b));
    less_trans = λ a b c.
        lex-less (f a b) (f b c) (f a c) (g a b) (g b c) (g a c) (F.less_trans a b c)
          (F.same_left a b c) (same_right a b c) (G.less_trans a b c);
    same_left = λ a b c.
        lex-same (f a b) (f b c) (f a c) (g a b) (g b c) (g a c) (F.same_left a b c)
          (G.same_left a b c);
  }

  pub in_direction-IsOrder : (d : Direction) → IsOrder (λ a b. in_direction d (f a b))
  in_direction-IsOrder asc = F
  in_direction-IsOrder desc = record {
    swap = λ a b. ap opposite (F.swap a b);
    less_trans = λ a b c h k. backwards a b c (flip_less (f a b) h) (flip_less (f b c) k);
    same_left = λ a b c h.
        ap opposite (F.same_left a b c (sym (opposite-opposite (f a b)) ∙ ap opposite h));
  }
    where
      flip_less : (s : Sign) → opposite s ≡ less → s ≡ more
      flip_less s h = sym (opposite-opposite s) ∙ ap opposite h

      backwards : (a b c : A) → f a b ≡ more → f b c ≡ more → opposite (f a c) ≡ less
      backwards a b c h k =
          sym (F.swap a c)
          ∙ F.less_trans c b a (F.swap b c ∙ ap opposite k) (F.swap a b ∙ ap opposite h)

pub on-IsOrder :
    {A B : Type 0} (g : B → A) (f : A → A → Sign) → IsOrder f → IsOrder (λ a b. f (g a) (g b))
on-IsOrder g f F = record {
  swap = λ a b. F.swap (g a) (g b);
  less_trans = λ a b c. F.less_trans (g a) (g b) (g c);
  same_left = λ a b c. F.same_left (g a) (g b) (g c);
}

-- The keys of a list's rows have the type and the direction that its query sorts by.
pub record KeyParts (Row : Type 0) : Type 0 where
  pub type : CursorType
  pub dir : Direction
  pub value_of : Row → String
  pub tiebreak_of : Row → String

abbrev pub key_by : {Row : Type 0} → KeyParts Row → Row → SortKey
key_by k row = record {
  type = k.type;
  value = k.value_of row;
  tiebreak = k.tiebreak_of row;
  dir = k.dir;
}

module _ (C : Codec) (locale : IsOrder C.locale_compare) {Row : Type 0} (k : KeyParts Row) where
  abbrev pub row_sign : Row → Row → Sign
  row_sign a b = compare_sort_keys C (key_by k a) (key_by k b)

  values-IsOrder : (t : CursorType) → IsOrder (compare_cursor_values C t)
  values-IsOrder time = locale
  values-IsOrder numeric = on-IsOrder C.big_int number_sign number_sign-IsOrder
  values-IsOrder bigint = on-IsOrder C.big_int number_sign number_sign-IsOrder

  pub row_sign-IsOrder : IsOrder row_sign
  unfolding compare_sort_keys
  row_sign-IsOrder =
      in_direction-IsOrder _
        (then_by-IsOrder (λ a b. compare_cursor_values C k.type (k.value_of a) (k.value_of b))
          (on-IsOrder k.value_of _ (values-IsOrder k.type)) _ (on-IsOrder k.tiebreak_of _ locale))
        k.dir
