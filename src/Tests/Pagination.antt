-- ===== src/Tests/Pagination.antt =====
-- The pagination's theorems at a list of two rows.
use kvorum.Base.{
  ◌==◌, if◌then◌else◌, All, ℕ, ◌≡◌, refl, false, none, some, [], ◌∷◌, ◌++◌, arith, str_eq,
}
use kvorum.Sources.Calldata.Hex.{Text, same_bytes}
use kvorum.Api.Pagination.{
  split_dots, compare_sort_keys, sort_rows, decode_parts, decode_cursor, CursorPayload, Codec,
  bigint, desc, same,
}
use kvorum.Api.Pagination.Seek.{Distinct}
use kvorum.Api.Pagination.Order.{key_by, IsOrder, KeyParts}
use kvorum.Api.Pagination.Cursor.{decode_cursor-signed, TagLaws, IsReadable}
use kvorum.Api.Pagination.Pages.{fetched, fetched-sort_rows}

abbrev by_power : KeyParts ℕ
by_power = record {
  type = bigint;
  dir = desc;
  value_of = λ n. if n == 0 then "10" else "9";
  tiebreak_of = λ n. "id";
}

abbrev payload : ℕ → CursorPayload
payload n = record { key = key_by by_power n; q = "votes" }

abbrev small_codec : Codec
small_codec = record {
  locale_compare = λ a b. same;
  big_int = λ s. if str_eq s "10" then 10 else 9;
  write_payload = λ p. if str_eq p.key.value "10" then 97 ∷ [] else 98 ∷ [];
  read_payload = λ t. if same_bytes t (97 ∷ []) then some (payload 0) else some (payload 1);
  sign = λ t. 99 ∷ [];
  is_hex = λ s. false;
  to_integer = λ s. none;
}

small_codec-TagLaws : TagLaws small_codec
small_codec-TagLaws = record { tag_dotless = λ t. (refl, tt); tag_filled = λ t. refl }

small_codec-IsOrder : IsOrder small_codec.locale_compare
small_codec-IsOrder = record {
  swap = λ a b. refl;
  less_trans = λ a b c h k. h;
  same_left = λ a b c h. refl;
}

payload-IsReadable : All (λ n. IsReadable small_codec (payload n)) (0 ∷ 1 ∷ [])
unfolding same_bytes
payload-IsReadable = (
  record { written_dotless = (refl, tt); written_filled = refl; read_written = refl },
  (record { written_dotless = (refl, tt); written_filled = refl; read_written = refl }, tt),
)

abbrev cursor_text : Text
cursor_text = 98 ∷ 46 ∷ 99 ∷ []

cursor_text-decodes : decode_cursor small_codec cursor_text ≡ some (payload 1)
unfolding decode_cursor decode_parts split_dots same_bytes
cursor_text-decodes = refl

decode_cursor-signed_example :
    (encoded : Text) × (cursor_text ≡ encoded ++ (46 ∷ small_codec.sign encoded))
    × (small_codec.read_payload encoded ≡ some (payload 1))
decode_cursor-signed_example =
    decode_cursor-signed small_codec cursor_text (payload 1) cursor_text-decodes

rows-Distinct : Distinct small_codec small_codec-IsOrder by_power (1 ∷ 0 ∷ [])
unfolding compare_sort_keys
rows-Distinct = ((refl, tt), (tt, tt))

fetched-sort_rows_example :
    fetched small_codec by_power "votes" (1 ∷ 0 ∷ []) 1 3 none
    ≡ some (sort_rows small_codec (key_by by_power) (1 ∷ 0 ∷ []))
fetched-sort_rows_example =
    fetched-sort_rows small_codec by_power "votes" (1 ∷ 0 ∷ []) 1 small_codec-TagLaws
      (payload-IsReadable.1.0, (payload-IsReadable.0, tt)) small_codec-IsOrder rows-Distinct
      (omega arith)
