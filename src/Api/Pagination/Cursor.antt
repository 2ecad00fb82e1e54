-- ===== src/Api/Pagination/Cursor.antt =====
-- encodeCursor and decodeCursor, of apps/api/src/pagination/cursor.ts.
use kvorum.Base.{
  ◌==◌, if◌then◌else◌, ==_iff, Bool-cases, Option-clash, All, ℕ, ◌≡◌, refl, sym, ap, ◌∙◌, inl, inr,
  Bool, true, false, ◌||◌, Option, none, some, List, [], ◌∷◌, ◌++◌,
}
use kvorum.Sources.Calldata.Hex.{Text, same_bytes, same_bytes→eq, same_bytes_refl}
use kvorum.Api.Pagination.{
  is_empty, push_char, split_dots, encode_cursor, decode_parts, decode_cursor, CursorPayload, Codec,
}

abbrev pub NoDot : Text → Type 0
NoDot = All (λ c. (c == 46) ≡ false)

-- Of the tags: base64url texts are not empty and have no dot.
pub record TagLaws (C : Codec) : Type 0 where
  pub tag_dotless : (t : Text) → NoDot (C.sign t)
  pub tag_filled : (t : Text) → is_empty (C.sign t) ≡ false

-- Of a payload: it is read back as it was written, and so is its text.
pub record IsReadable (C : Codec) (p : CursorPayload) : Type 0 where
  pub written_dotless : NoDot (C.write_payload p)
  pub written_filled : is_empty (C.write_payload p) ≡ false
  pub read_written : C.read_payload (C.write_payload p) ≡ some p

split-dotless : (t : Text) → NoDot t → split_dots t ≡ t ∷ []
unfolding split_dots
split-dotless [] h = refl
split-dotless (c ∷ t) h = rw (h.0, split-dotless t h.1) refl

split-joined : (a b : Text) → NoDot a → NoDot b → split_dots (a ++ (46 ∷ b)) ≡ a ∷ b ∷ []
unfolding split_dots
split-joined [] b h k = ap (λ l. [] ∷ l) (split-dotless b k)
split-joined (c ∷ a) b h k = rw (h.0, split-joined a b h.1 k) refl

-- The parts with dots between them.
abbrev join_dots : List Text → Text
join_dots [] = []
join_dots (a ∷ []) = a
join_dots (a ∷ b ∷ rest) = a ++ (46 ∷ join_dots (b ∷ rest))

join-push_char :
    (c : ℕ) (p : Text) (ps : List Text) → join_dots (push_char c (p ∷ ps)) ≡ c ∷ join_dots (p ∷ ps)
join-push_char c p [] = refl
join-push_char c p (q ∷ ps) = refl

join-split :
    (t : Text)
    → ((p : Text) × (ps : List Text) × (split_dots t ≡ p ∷ ps)) × (join_dots (split_dots t) ≡ t)
unfolding split_dots
join-split [] = (([], [], refl), refl)
join-split (c ∷ t) =
    let ((p, ps, e), j) = join-split t in
    elim (Bool-cases (c == 46)) [
      | inl h ↦
          rw (h, e)
            (
              ([], p ∷ ps, refl),
              rw (sym ((==_iff c 46).0 h)) (ap (λ r. c ∷ r) (ap join_dots (sym e) ∙ j)),
            )
      | inr h ↦
          rw (h, e)
            ((c ∷ p, ps, refl), join-push_char c p ps ∙ ap (λ r. c ∷ r) (ap join_dots (sym e) ∙ j))
    ]

else-some :
    (b : Bool) (o : Option CursorPayload) (p : CursorPayload)
    → (if b then none else o) ≡ some p
    → o ≡ some p
else-some true o p h = Option-clash h
else-some false o p h = h

then-some :
    (b : Bool) (o : Option CursorPayload) (p : CursorPayload)
    → (if b then o else none) ≡ some p
    → (b ≡ true) × (o ≡ some p)
then-some true o p h = (refl, h)
then-some false o p h = Option-clash h

module _ (C : Codec) where
  -- A cursor splits into its two texts and passes its own tag, so that a payload that can be read
  -- back is.
  pub decode_cursor-encode_cursor :
      (p : CursorPayload)
      → TagLaws C
      → IsReadable C p
      → decode_cursor C (encode_cursor C p) ≡ some p
  unfolding decode_cursor encode_cursor decode_parts
  decode_cursor-encode_cursor p T L =
      let encoded = C.write_payload p in
      rw
        (
          split-joined encoded (C.sign encoded) L.written_dotless (T.tag_dotless encoded),
          L.written_filled,
          T.tag_filled encoded,
          same_bytes_refl (C.sign encoded),
        )
        L.read_written

  decode_parts-signed :
      (parts : List Text) (p : CursorPayload)
      → decode_parts C parts ≡ some p
      → (encoded : Text) × (parts ≡ encoded ∷ C.sign encoded ∷ [])
        × (C.read_payload encoded ≡ some p)
  unfolding decode_parts
  decode_parts-signed [] p h = Option-clash h
  decode_parts-signed (a ∷ []) p h = Option-clash h
  decode_parts-signed (a ∷ b ∷ c ∷ rest) p h = Option-clash h
  decode_parts-signed (a ∷ b ∷ []) p h =
      let passed = else-some (is_empty a || is_empty b) _ p h in
      let (g, is) = then-some (same_bytes b (C.sign a)) (C.read_payload a) p passed in
      (a, ap (λ t. a ∷ t ∷ []) (same_bytes→eq b (C.sign a) g), is)

  -- A text that decodes is a payload with the tag that the secret gives it: without the tag of just
  -- this payload nothing is read.
  pub decode_cursor-signed :
      (raw : Text) (p : CursorPayload)
      → decode_cursor C raw ≡ some p
      → (encoded : Text) × (raw ≡ encoded ++ (46 ∷ C.sign encoded))
        × (C.read_payload encoded ≡ some p)
  unfolding decode_cursor
  decode_cursor-signed raw p h =
      let (encoded, e, is) = decode_parts-signed (split_dots raw) p h in
      (encoded, sym (join-split raw).1 ∙ ap join_dots e, is)
