-- ===== src/Log/BinaryLogger/Encoded.antt =====
-- The bytes of a sequence of records of src/log/binary_logger.cpp.
use smart_quant.Prelude.{
  ℕ, ◌+◌, ◌%◌, ◌^◌, ◌≤◌, ◌<◌, ◌≡◌, refl, sym, ap, ◌∙◌, List, [], ◌∷◌, ◌++◌, length, All, arith,
  length-append,
}
use native.Mathlib.Nat.{mod-add-mod, mod-lt}
use smart_quant.Prelude.Word.{IsWord}
use smart_quant.Log.BinaryLogger.{BinaryLogger, Entry, record_header, write}
use smart_quant.Log.BinaryLogger.Ring.{put, put-append}
use smart_quant.Log.BinaryLogger.Bytes.{length-record_header}
use smart_quant.Log.BinaryLogger.RoundTrip.{write-put, write_pos-write}

-- The messages are written one after another.
unfoldable pub write_all : BinaryLogger → List Entry → BinaryLogger
write_all l [] = l
write_all l (e ∷ es) = write_all (write l e.timestamp_ns e.bytes) es

-- The bytes of a record, and those of a log.
unfoldable pub encode : Entry → List ℕ
encode e = record_header e.timestamp_ns (length e.bytes) ++ e.bytes

unfoldable pub encode_all : List Entry → List ℕ
encode_all [] = []
encode_all (e ∷ es) = encode e ++ encode_all es

abbrev pub IsRecord : Entry → Type 0
IsRecord e = IsWord e.timestamp_ns × (length e.bytes < 2 ^ 32)

pub length-encode : (e : Entry) → length (encode e) ≡ 12 + length e.bytes
unfolding encode
length-encode e = omega (
  arith,
  length-append (record_header e.timestamp_ns (length e.bytes)) e.bytes,
  length-record_header e.timestamp_ns (length e.bytes),
)

pub length-encode_all :
    (e : Entry) (es : List Entry)
    → length (encode_all (e ∷ es)) ≡ 12 + length e.bytes + length (encode_all es)
unfolding encode_all
length-encode_all e es = omega (arith, length-append (encode e) (encode_all es), length-encode e)

pub empty_put :
    (l : BinaryLogger)
    → (l.buf ≡ put l.buf l.buf_size (l.write_pos % l.buf_size) (encode_all []))
      × (l.write_pos ≡ l.write_pos + length (encode_all []))
unfolding put encode_all
empty_put l = (refl, omega arith)

pub write-encode :
    (l : BinaryLogger) (e : Entry)
    → 0 < l.buf_size
    → length e.bytes < 2 ^ 32
    → 12 + length e.bytes ≤ l.buf_size
    → (write l e.timestamp_ns e.bytes).buf
      ≡ put l.buf l.buf_size (l.write_pos % l.buf_size) (encode e)
unfolding encode
write-encode l e p short fits = write-put l e.timestamp_ns e.bytes p short fits

-- The slot after a record.
pub offset_after :
    (l : BinaryLogger) (e : Entry) (pos' : ℕ)
    → pos' ≡ l.write_pos + 12 + length e.bytes
    → pos' % l.buf_size ≡ (l.write_pos % l.buf_size + length (encode e)) % l.buf_size
offset_after l e pos' h =
    let whole : pos' ≡ l.write_pos + length (encode e) = omega (arith, length-encode e) in
    rw whole (sym (mod-add-mod l.write_pos l.buf_size (length (encode e))))

-- All the writes together put the bytes of the log behind what is there.
pub write_all-put :
    (es : List Entry) (l : BinaryLogger)
    → 0 < l.buf_size
    → All IsRecord es
    → length (encode_all es) ≤ l.buf_size
    → l.write_pos + length (encode_all es) < 2 ^ 64
    → ((write_all l es).buf ≡ put l.buf l.buf_size (l.write_pos % l.buf_size) (encode_all es))
      × ((write_all l es).write_pos ≡ l.write_pos + length (encode_all es))
unfolding write_all write encode_all encode
write_all-put [] l p rs fits room = empty_put l
write_all-put (e ∷ es) l p (r, rs) fits room =
    let n = length e.bytes in
    let sized = length-encode_all e es in
    let l' = write l e.timestamp_ns e.bytes in
    let pos' : l'.write_pos ≡ l.write_pos + 12 + n =
      write_pos-write l e.timestamp_ns e.bytes r.1 (omega arith) in
    let buf' : l'.buf ≡ put l.buf l.buf_size (l.write_pos % l.buf_size) (encode e) =
      write-encode l e p r.1 (omega arith) in
    let (rest, end) = write_all-put es l' p rs (omega arith) (omega arith) in
    (
      rest
          ∙ ap (λ b. put b l.buf_size (l'.write_pos % l.buf_size) (encode_all es)) buf'
          ∙ ap
              (λ i.
                put (put l.buf l.buf_size (l.write_pos % l.buf_size) (encode e)) l.buf_size i
                  (encode_all es))
              (offset_after l e l'.write_pos pos')
          ∙ sym (
              put-append (encode e) (encode_all es) l.buf l.buf_size (l.write_pos % l.buf_size)
                (mod-lt l.write_pos p)),
      omega arith,
    )
