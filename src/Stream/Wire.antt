-- ===== src/Stream/Wire.antt =====
-- A log entry on the wire (`row.MarshalJSON` and `row.UnmarshalJSON` of
-- internal/storage/loki/encoding.go).
use alertsnitch.Base.{
  ◌≡◌, ◌⊎◌, refl, inl, inr, List, [], ◌∷◌, String, Bytes, Labels, Time, Result, ok, err, message,
  ◌>>=◌, context, length, if◌then◌else◌, ℤ,
}
use alertsnitch.Base.Maps.{lookup}
use alertsnitch.Labels.{is_empty}
use alertsnitch.Timestamps.{Row}

-- What the methods use of encoding/json, strconv and time: json.Marshal of two strings, and of two
-- strings and a map; json.Unmarshal into raw messages, a string and a map; FormatInt and ParseInt to
-- base 10; UnixNano and time.Unix.
pub record Wire : Type 0 where
  pub marshal_strings : String → String → Result Bytes
  pub marshal_tuple : String → String → Labels → Result Bytes
  pub unmarshal_array : Bytes → Result (List Bytes)
  pub unmarshal_string : Bytes → Result String
  pub unmarshal_map : Bytes → Result Labels
  pub format_int : ℤ → String
  pub parse_int : String → Result ℤ
  pub unix_nano : Time → ℤ
  pub unix : ℤ → Time

-- `MarshalJSON`
unfoldable pub marshal_row : Wire → Row → Result Bytes
marshal_row w r =
    if is_empty r.meta
    then w.marshal_strings (w.format_int (w.unix_nano r.at)) r.val
    else w.marshal_tuple (w.format_int (w.unix_nano r.at)) r.val r.meta

-- `UnmarshalJSON` from the timestamp to the line.
abbrev pub decode_entry : Wire → Bytes → Bytes → Result Row
decode_entry w at val = do
  ts ← context "failed to decode timestamp" (w.unmarshal_string at)
  line ← context "failed to decode line" (w.unmarshal_string val)
  nanos ← context "failed to parse timestamp" (w.parse_int ts)
  ok (record { at = w.unix nanos; val = line; meta = [] })

-- `UnmarshalJSON` on the elements of the array.
abbrev pub decode_elements : Wire → List Bytes → Result Row
decode_elements w (at ∷ val ∷ []) = decode_entry w at val
decode_elements w (at ∷ val ∷ meta ∷ []) = do
  r ← decode_entry w at val
  labels ← context "failed to decode structured metadata" (w.unmarshal_map meta)
  ok (record r { meta = labels })
decode_elements w arr = err (message "expected array of length 2 or 3")

-- `UnmarshalJSON`; the row is what it leaves when it returns no error.
unfoldable pub unmarshal_row : Wire → Bytes → Result Row
unmarshal_row w bytes = w.unmarshal_array bytes >>= decode_elements w

-- What is documented of them, for strings that are valid UTF-8 (`IsText`), which JSON keeps as they are,
-- maps of such strings (`IsTexts`), of which JSON keeps the value at every key, and times whose
-- nanoseconds fit in int64 (`IsNano`).
pub record WireLaws (w : Wire) (IsText : String → Type 0) (IsTexts : Labels → Type 0)
    (IsNano : Time → Type 0) : Type 0 where
  pub strings :
      (a b : String) (bytes : Bytes)
      → IsText a
      → IsText b
      → w.marshal_strings a b ≡ ok bytes
      → (x : Bytes) × (y : Bytes) × (w.unmarshal_array bytes ≡ ok (x ∷ y ∷ []))
        × (w.unmarshal_string x ≡ ok a)
        × (w.unmarshal_string y ≡ ok b)
  pub tuple :
      (a b : String) (m : Labels) (bytes : Bytes)
      → IsText a
      → IsText b
      → IsTexts m
      → w.marshal_tuple a b m ≡ ok bytes
      → (x : Bytes) × (y : Bytes) × (z : Bytes) × (m' : Labels) × (w.unmarshal_array bytes
          ≡ ok (x ∷ y ∷ z ∷ []))
        × (w.unmarshal_string x ≡ ok a)
        × (w.unmarshal_string y ≡ ok b)
        × (w.unmarshal_map z ≡ ok m')
        × ((key : String) → lookup key m' ≡ lookup key m)
  pub digits : (t : Time) → IsNano t → IsText (w.format_int (w.unix_nano t))
  pub parses :
      (t : Time) → IsNano t → w.parse_int (w.format_int (w.unix_nano t)) ≡ ok (w.unix_nano t)
  pub instant : (t : Time) → IsNano t → w.unix (w.unix_nano t) ≡ t

module _ (w : Wire) (IsText : String → Type 0) (IsTexts : Labels → Type 0) (IsNano : Time → Type 0)
    (laws : WireLaws w IsText IsTexts IsNano) where
  decode_entry-back :
      (r : Row) (x y : Bytes)
      → IsNano r.at
      → w.unmarshal_string x ≡ ok (w.format_int (w.unix_nano r.at))
      → w.unmarshal_string y ≡ ok r.val
      → decode_entry w x y ≡ ok (record { at = r.at; val = r.val; meta = [] })
  decode_entry-back r x y fits at val =
      rw (at, val, laws.parses r.at fits, laws.instant r.at fits) refl

  -- An entry whose strings are valid UTF-8 and whose time has its nanoseconds in int64, written as JSON,
  -- is read again without an error as an entry with the same time, the same line, and the same value at
  -- every key of its metadata.
  pub unmarshal_row-marshal_row :
      (r : Row) (bytes : Bytes)
      → IsNano r.at
      → IsText r.val
      → IsTexts r.meta
      → marshal_row w r ≡ ok bytes
      → (meta : Labels) × (unmarshal_row w bytes
          ≡ ok (record { at = r.at; val = r.val; meta = meta }))
        × ((key : String) → lookup key meta ≡ lookup key r.meta)
  unfolding marshal_row unmarshal_row
  unmarshal_row-marshal_row r bytes fits line texts h = by_meta r.meta texts h
    where
      by_meta :
          (meta : Labels)
          → IsTexts meta
          → marshal_row w (record r { meta = meta }) ≡ ok bytes
          → (meta' : Labels) × (unmarshal_row w bytes
              ≡ ok (record { at = r.at; val = r.val; meta = meta' }))
            × ((key : String) → lookup key meta' ≡ lookup key meta)
      by_meta [] t e =
          let (x, y, arr, at, val) = laws.strings _ _ bytes (laws.digits r.at fits) line e in
          ([], rw (arr, decode_entry-back r x y fits at val) refl, λ key. refl)
      by_meta (l ∷ meta) t e =
          let (x, y, z, meta', arr, at, val, labels, same) =
            laws.tuple _ _ _ bytes (laws.digits r.at fits) line t e in
          (meta', rw (arr, decode_entry-back r x y fits at val, labels) refl, same)

-- Only arrays of two or three elements are accepted.
pub unmarshal_row-length :
    (w : Wire) (bytes : Bytes) (arr : List Bytes) (r : Row)
    → w.unmarshal_array bytes ≡ ok arr
    → unmarshal_row w bytes ≡ ok r
    → (length arr ≡ 2) ⊎ (length arr ≡ 3)
unfolding unmarshal_row
unmarshal_row-length w bytes arr r h e = by_length arr (rw h at e)
  where
    by_length :
        (arr : List Bytes) → decode_elements w arr ≡ ok r → (length arr ≡ 2) ⊎ (length arr ≡ 3)
    by_length [] e = absurd (cc (e))
    by_length (x ∷ []) e = absurd (cc (e))
    by_length (x ∷ y ∷ []) e = inl refl
    by_length (x ∷ y ∷ z ∷ []) e = inr refl
    by_length (x ∷ y ∷ z ∷ u ∷ arr) e = absurd (cc (e))
