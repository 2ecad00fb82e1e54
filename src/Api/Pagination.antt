-- ===== src/Api/Pagination.antt =====
-- apps/api/src/pagination/cursor.ts. A row's sort key has the texts of its value and its tiebreak;
-- `localeCompare`, BigInt, the JSON and base64url forms of a payload and the HMAC are parameters, and
-- a text that is signed or split is the list of its character codes. What BigInt throws is left out.
pub mod Order
pub mod Cursor
pub mod Seek
pub mod Pages
use kvorum.Base.{
  ltb, ◌==◌, if◌then◌else◌, is_some, length, take, keep, ℕ, String, Bool, true, false, ◌&&◌, ◌||◌,
  Option, none, some, List, [], ◌∷◌, ◌++◌, str_eq,
}
use kvorum.Sources.Calldata.Hex.{Text, same_bytes}

pub data CursorType : Type 0 where
  time numeric bigint : CursorType

pub data Direction : Type 0 where
  asc desc : Direction

pub record SortKey : Type 0 where
  pub type : CursorType
  pub value : String
  pub tiebreak : String
  pub dir : Direction

pub record CursorPayload : Type 0 where
  pub key : SortKey
  pub q : String

-- The sign of a comparison.
pub data Sign : Type 0 where
  less same more : Sign

abbrev pub opposite : Sign → Sign
opposite less = more
opposite same = same
opposite more = less

abbrev pub then_by : Sign → Sign → Sign
then_by less t = less
then_by same t = t
then_by more t = more

abbrev pub in_direction : Direction → Sign → Sign
in_direction asc s = s
in_direction desc s = opposite s

abbrev pub is_more : Sign → Bool
is_more less = false
is_more same = false
is_more more = true

abbrev pub number_sign : ℕ → ℕ → Sign
number_sign a b = if ltb a b then less else if ltb b a then more else same

-- What the code calls outside itself. `read_payload` is `none` where the text does not decode, is no
-- JSON or does not fit the schema; `to_integer` where the text is not an integer from 0 on.
pub record Codec : Type 0 where
  pub locale_compare : String → String → Sign
  pub big_int : String → ℕ
  pub write_payload : CursorPayload → Text
  pub read_payload : Text → Option CursorPayload
  pub sign : Text → Text
  pub is_hex : String → Bool
  pub to_integer : String → Option ℕ

abbrev pub limit_of : Option ℕ → Option ℕ
limit_of none = none
limit_of (some n) = if ltb n 1 then none else if ltb 200 n then some 200 else some n

abbrev pub with_dir : Direction → SortKey → SortKey
with_dir d k = record { type = k.type; value = k.value; tiebreak = k.tiebreak; dir = d }

pub record Page (Row : Type 0) : Type 0 where
  pub data_rows : List Row
  pub has_more : Bool
  pub next_cursor : Option Text

abbrev pub last_row : {Row : Type 0} → List Row → Option Row
last_row [] = none
last_row (r ∷ []) = some r
last_row (r ∷ s ∷ rs) = last_row (s ∷ rs)

abbrev pub is_empty : Text → Bool
is_empty [] = true
is_empty (c ∷ cs) = false

-- `raw.split('.')`.
abbrev pub push_char : ℕ → List Text → List Text
push_char c [] = (c ∷ []) ∷ []
push_char c (part ∷ parts) = (c ∷ part) ∷ parts

unfoldable pub split_dots : Text → List Text
split_dots [] = [] ∷ []
split_dots (c ∷ cs) = let rest = split_dots cs in if c == 46 then [] ∷ rest else push_char c rest

module _ (C : Codec) where
  abbrev pub compare_cursor_values : CursorType → String → String → Sign
  compare_cursor_values time a b = C.locale_compare a b
  compare_cursor_values numeric a b = number_sign (C.big_int a) (C.big_int b)
  compare_cursor_values bigint a b = number_sign (C.big_int a) (C.big_int b)

  unfoldable pub compare_sort_keys : SortKey → SortKey → Sign
  compare_sort_keys a b = in_direction a.dir (
      then_by (compare_cursor_values a.type a.value b.value)
        (C.locale_compare a.tiebreak b.tiebreak))

  unfoldable pub encode_cursor : CursorPayload → Text
  encode_cursor payload = let encoded = C.write_payload payload in encoded ++ (46 ∷ C.sign encoded)

  -- `trimmed` of the parameter, if there is one; `none` where the code throws.
  unfoldable pub parse_limit : Option String → Option ℕ
  parse_limit none = some 50
  parse_limit (some trimmed) =
      if str_eq trimmed ""
      then some 50
      else if C.is_hex trimmed
      then none
      else limit_of (C.to_integer trimmed)

  module _ {Row : Type 0} (key_of : Row → SortKey) where
    unfoldable pub insert_row : Row → List Row → List Row
    insert_row r [] = r ∷ []
    insert_row r (x ∷ xs) =
        let rest = insert_row r xs in
        if is_more (compare_sort_keys (key_of r) (key_of x)) then x ∷ rest else r ∷ x ∷ xs

    unfoldable pub sort_rows : List Row → List Row
    sort_rows [] = []
    sort_rows (r ∷ rs) = insert_row r (sort_rows rs)

    abbrev pub is_after : SortKey → Row → Bool
    is_after cursor row = is_more (compare_sort_keys (with_dir cursor.dir (key_of row)) cursor)

    unfoldable pub sort_and_seek : List Row → Option CursorPayload → List Row
    sort_and_seek rows none = sort_rows rows
    sort_and_seek rows (some cursor) = keep (is_after cursor.key) (sort_rows rows)

  unfoldable pub cursor_behind : {Row : Type 0} → (Row → CursorPayload) → Option Row → Option Text
  cursor_behind payload_of none = none
  cursor_behind payload_of (some r) = some (encode_cursor (payload_of r))

  unfoldable pub build_pagination : {Row : Type 0} → List Row → ℕ → (Row → CursorPayload) → Page Row
  build_pagination rows limit payload_of =
      let more_rows = ltb limit (length rows) in
      let shown = if more_rows then take limit rows else rows in
      record {
        data_rows = shown;
        has_more = more_rows && is_some (last_row shown);
        next_cursor = if more_rows then cursor_behind payload_of (last_row shown) else none;
      }

  unfoldable pub decode_parts : List Text → Option CursorPayload
  decode_parts (encoded ∷ tag ∷ []) =
      if is_empty encoded || is_empty tag
      then none
      else if same_bytes tag (C.sign encoded)
      then C.read_payload encoded
      else none
  decode_parts _ = none

  -- `none` where the code throws `invalid-cursor`.
  unfoldable pub decode_cursor : Text → Option CursorPayload
  unfolding decode_parts
  decode_cursor raw = decode_parts (split_dots raw)

  -- The rows of a list endpoint, as votes.controller.ts and actor-votes.controller.ts page them; `none`
  -- where the cursor is invalid or belongs to another query.
  module _ {Row : Type 0} (key_of : Row → SortKey) (canonical : String) where
    abbrev pub payload_of : Row → CursorPayload
    payload_of row = record { key = key_of row; q = canonical }

    abbrev pub page_from : List Row → ℕ → Option CursorPayload → Page Row
    page_from rows limit cursor =
        build_pagination (sort_and_seek key_of rows cursor) limit payload_of

    unfoldable pub page_of : List Row → ℕ → Option CursorPayload → Option (Page Row)
    page_of rows limit none = none
    page_of rows limit (some c) =
        if str_eq c.q canonical then some (page_from rows limit (some c)) else none

    unfoldable pub list_page : List Row → ℕ → Option Text → Option (Page Row)
    unfolding page_of
    list_page rows limit none = some (page_from rows limit none)
    list_page rows limit (some raw) = page_of rows limit (decode_cursor raw)
