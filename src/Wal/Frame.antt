-- ===== src/Wal/Frame.antt =====
-- The byte format of the log: frames of a 4-byte length and a JSON body (`writeRecord`,
-- `readRecords` of internal/storage/loki/wal.go).
pub mod RoundTrip
use alertsnitch.Base.{
  ℕ, zero, suc, ◌+◌, ◌*◌, ◌/◌, ◌%◌, ◌^◌, Option, none, some, Bool, true, false, ◌||◌, List, [], ◌∷◌,
  ◌++◌, Bytes, Result, ok, err, Error, external, too_large, wrap, ltb, ◌==◌, if◌then◌else◌, length,
  take, drop,
}
use alertsnitch.Wal.{WalRecord, Codec, max_record_len}

-- binary.BigEndian.PutUint32 of `uint32(n)`
unfoldable pub put_u32 : ℕ → Bytes
put_u32 n =
    let m = n % 2 ^ 32 in
    (m / 2 ^ 24 % 256) ∷ (m / 2 ^ 16 % 256) ∷ (m / 2 ^ 8 % 256) ∷ (m % 256) ∷ []

-- binary.BigEndian.Uint32
unfoldable pub get_u32 : ℕ → ℕ → ℕ → ℕ → ℕ
get_u32 b0 b1 b2 b3 = b0 * 2 ^ 24 + b1 * 2 ^ 16 + b2 * 2 ^ 8 + b3

-- The bytes of one record: its length, then its body.
unfoldable pub frame : Bytes → Bytes
frame body = put_u32 (length body) ++ body

-- `writeRecord`: the bytes that it writes; a failing write is part of the caller's outcome.
unfoldable pub write_record : Codec → WalRecord → Result Bytes
write_record c rec = elim (c.marshal rec) [
  | err e ↦ err (wrap "marshaling wal record" e)
  | ok body ↦
      if ltb max_record_len (length body) then err (too_large (length body)) else ok (frame body)
]

-- `io.ReadFull(reader, lenBuf[:])`: the length and what follows, `none` at the end or a torn prefix.
unfoldable pub read_header : Bytes → Option (ℕ × Bytes)
unfolding get_u32
read_header (b0 ∷ b1 ∷ b2 ∷ b3 ∷ rest) = some (get_u32 b0 b1 b2 b3, rest)
read_header _ = none

-- One more record in front of what the rest of the loop returns.
abbrev pub add_record : WalRecord → ℕ → Result (List WalRecord × ℕ) → Result (List WalRecord × ℕ)
add_record rec n (ok (records, consumed)) = ok (rec ∷ records, (4 + n) % 2 ^ 32 + consumed)
add_record rec n (err e) = err e

-- The loop of `readRecords` over the bytes that the device can read. After them comes the end of
-- the file, or, if `faulty`, an I/O error. The fuel bounds the number of frames.
unfoldable pub read_frames : Codec → Bool → ℕ → Bytes → Result (List WalRecord × ℕ)
read_frames c faulty zero bytes = ok ([], 0)
read_frames c faulty (suc fuel) bytes = elim (read_header bytes) [
  | none ↦ if faulty then err (wrap "reading wal length" (external "read")) else ok ([], 0)
  | some (n, rest) ↦
      let more = read_frames c faulty fuel (drop n rest) in
      if n == 0 || ltb max_record_len n
      then ok ([], 0)
      else if ltb (length rest) n
      then ok ([], 0)
      else elim (c.unmarshal (take n rest)) [ none ↦ ok ([], 0) | some rec ↦ add_record rec n more ]
]

-- How a read of the log goes: in full, the open fails, or an I/O error after some bytes.
pub data ReadIo : Type 0 where
  in_full open_fails : ReadIo
  fails_after : ℕ → ReadIo

-- `readRecords`: the intact records in order and the bytes that they take. A missing file is empty.
unfoldable pub read_records : Codec → ReadIo → Option Bytes → Result (List WalRecord × ℕ)
read_records c open_fails (some bytes) = err (wrap "opening wal log" (external "open"))
read_records c in_full (some bytes) = read_frames c false (suc (length bytes)) bytes
read_records c (fails_after n) (some bytes) = read_frames c true (suc (length bytes)) (take n bytes)
read_records c open_fails none = err (wrap "opening wal log" (external "open"))
read_records c _ none = ok ([], 0)
