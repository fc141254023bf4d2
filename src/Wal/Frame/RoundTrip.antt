-- ===== src/Wal/Frame/RoundTrip.antt =====
-- What `readRecords` makes of the frames that `append` and `writeRecord` wrote.
use mathlib.Core.Path.{subst}
use alertsnitch.Base.{
  ℕ, zero, suc, ◌+◌, ◌/◌, ◌%◌, ◌^◌, ◌≤◌, ◌<◌, ◌≡◌, refl, sym, ap, some, Bool, true, false, List, [],
  ◌∷◌, ◌++◌, append_assoc, append-nil, length-take, arith, Bytes, ok, ltb, ◌==◌, length, take,
  length-append, take-append_length, drop-append_length, le→ltb, lt→ltb,
}
use alertsnitch.Wal.{WalRecord, Codec, max_record_len}
use alertsnitch.Wal.Frame.{
  put_u32, get_u32, frame, read_header, add_record, read_frames, read_records, in_full,
}

-- A stretch of the log: frames whose bodies decode to the records, and that can be written again.
pub record IsEntry (c : Codec) (body : Bytes) (r : WalRecord) : Type 0 where
  pub nonempty : 0 < length body
  pub fits : length body ≤ max_record_len
  pub decoded : c.unmarshal body ≡ some r
  pub settled : c.stored r ≡ r
  pub again : Bytes
  pub encoded : c.marshal r ≡ ok again
  pub again_fits : length again ≤ max_record_len

pub data IsLog (c : Codec) : Bytes → List WalRecord → Type 0 where
  nil : IsLog c [] []
  cons :
      {body bytes : Bytes} {r : WalRecord} {rs : List WalRecord}
      → IsEntry c body r
      → IsLog c bytes rs
      → IsLog c (frame body ++ bytes) (r ∷ rs)

-- The length prefix reads back, whatever 32-bit length is written.
get_u32-put_u32 :
    (n : ℕ)
    → n < 2 ^ 32
    → get_u32
        (n % 2 ^ 32 / 2 ^ 24 % 256)
        (n % 2 ^ 32 / 2 ^ 16 % 256)
        (n % 2 ^ 32 / 2 ^ 8 % 256)
        (n % 2 ^ 32 % 256)
      ≡ n
unfolding get_u32
get_u32-put_u32 n h = omega arith

pub read_header-length :
    (n : ℕ) (rest : Bytes) → n < 2 ^ 32 → read_header (put_u32 n ++ rest) ≡ some (n, rest)
unfolding read_header put_u32
read_header-length n rest h = ap (λ m. some (m, rest)) (get_u32-put_u32 n h)

read_header-frame :
    (body rest : Bytes)
    → length body ≤ max_record_len
    → read_header (frame body ++ rest) ≡ some (length body, body ++ rest)
unfolding frame
read_header-frame body rest h =
    rw append_assoc (read_header-length (length body) (body ++ rest) (omega arith))

-- The loop reads one entry and goes on after it.
pub read_frames-entry :
    (c : Codec) (faulty : Bool) (fuel : ℕ) (body rest : Bytes) (r : WalRecord)
    → IsEntry c body r
    → read_frames c faulty (suc fuel) (frame body ++ rest)
      ≡ add_record r (length body) (read_frames c faulty fuel rest)
unfolding read_frames
read_frames-entry c faulty fuel body rest r e =
    let nonzero : (length body == 0) ≡ false = grind (arith, e.nonempty) in
    let fits : ltb max_record_len (length body) ≡ false = le→ltb _ _ e.fits in
    let whole : ltb (length (body ++ rest)) (length body) ≡ false =
      le→ltb _ _ (omega (arith, length-append body rest)) in
    rw (read_header-frame body rest e.fits, read_frames)
      (rw (nonzero, fits, whole)
        (rw (take-append_length body rest, e.decoded, drop-append_length body rest)))

pub length-frame : (body : Bytes) → length (frame body) ≡ 4 + length body
unfolding frame put_u32
length-frame body = omega arith

module _ (c : Codec) (faulty : Bool) (rest : Bytes) where
  -- Over a log the loop reads every record, then what it makes of the rest, here nothing.
  pub read_frames-IsLog :
      (fuel : ℕ) {bytes : Bytes} {rs : List WalRecord}
      → IsLog c bytes rs
      → length bytes < fuel
      → ((f : ℕ) → read_frames c faulty (suc f) rest ≡ ok ([], 0))
      → read_frames c faulty fuel (bytes ++ rest) ≡ ok (rs, length bytes)
  read_frames-IsLog zero l h stop = elim h [ ]
  read_frames-IsLog (suc f) nil h stop = stop f
  read_frames-IsLog (suc f) (cons {body = body} {bytes = bytes} {r = r} {rs = rs} e l) h stop =
      let size : length (frame body ++ bytes) ≡ 4 + length body + length bytes =
        omega (arith, length-append (frame body) bytes, length-frame body) in
      let whole : (4 + length body) % 2 ^ 32 + length bytes ≡ length (frame body ++ bytes) =
        omega (arith, size, e.fits) in
      rw (append_assoc, read_frames-entry c faulty f body (bytes ++ rest) r e)
        (rw (read_frames-IsLog f l (omega arith) stop, add_record) (ap (λ n. ok (r ∷ rs, n)) whole))

-- A prefix of a frame that is not the whole frame ends the loop: a crash in the middle of a write.
pub read_frames-torn :
    (c : Codec) (f k : ℕ) (body : Bytes)
    → 0 < length body
    → length body ≤ max_record_len
    → k < length (frame body)
    → read_frames c false (suc f) (take k (frame body)) ≡ ok ([], 0)
unfolding read_frames frame put_u32 read_header
read_frames-torn c f zero body p h lt = refl
read_frames-torn c f (suc zero) body p h lt = refl
read_frames-torn c f (suc (suc zero)) body p h lt = refl
read_frames-torn c f (suc (suc (suc zero))) body p h lt = refl
read_frames-torn c f (suc (suc (suc (suc k)))) body p h lt =
    let nonzero : (length body == 0) ≡ false = grind arith in
    let fits : ltb max_record_len (length body) ≡ false = le→ltb _ _ h in
    let short : ltb (length (take k body)) (length body) ≡ true =
      lt→ltb _ _ (omega (arith, length-take k body)) in
    rw (get_u32-put_u32 (length body) (omega arith), nonzero, fits, short)

-- Any proper prefix of a frame behind a log is ignored: the records and the size are the log's.
pub read_records-torn :
    (c : Codec) {bytes : Bytes} {rs : List WalRecord} (k : ℕ) (body : Bytes)
    → IsLog c bytes rs
    → 0 < length body
    → length body ≤ max_record_len
    → k < length (frame body)
    → read_records c in_full (some (bytes ++ take k (frame body))) ≡ ok (rs, length bytes)
unfolding read_records
read_records-torn c {bytes} k body l p h lt =
    read_frames-IsLog c false (take k (frame body)) _ l
      (omega (arith, length-append bytes (take k (frame body))))
      (λ f. read_frames-torn c f k body p h lt)

-- A log reads back whole.
pub read_records-IsLog :
    (c : Codec) {bytes : Bytes} {rs : List WalRecord}
    → IsLog c bytes rs
    → read_records c in_full (some bytes) ≡ ok (rs, length bytes)
unfolding read_records
read_records-IsLog c {bytes} {rs} l =
    subst (λ b. read_frames c false (suc (length bytes)) b ≡ ok (rs, length bytes))
      (append-nil bytes)
      (read_frames-IsLog c false [] (suc (length bytes)) l (omega arith) (λ f. end f))
  where
    end : (f : ℕ) → read_frames c false (suc f) [] ≡ ok ([], 0)
    end f = unfold read_frames read_header in refl

-- One more entry at the end.
pub IsLog-append :
    {c : Codec} {bytes body : Bytes} {r : WalRecord} {rs : List WalRecord}
    → IsLog c bytes rs
    → IsEntry c body r
    → IsLog c (bytes ++ frame body) (rs ++ r ∷ [])
IsLog-append {c} {body = body} {r = r} nil e =
    subst (λ b. IsLog c b (r ∷ [])) (append-nil (frame body)) (cons e nil)
IsLog-append {c} {body = b'} {r = r'} (cons {body = body} {bytes = bytes} {r = r} {rs = rs} e l)
      e' =
    subst (λ b. IsLog c b (r ∷ rs ++ r' ∷ [])) (sym (append_assoc (frame body) bytes (frame b')))
      (cons e (IsLog-append l e'))
