-- ===== src/Log/BinaryLogger/RoundTrip.antt =====
-- A record that src/log/binary_logger.cpp writes is the record that its reader gives.
use smart_quant.Prelude.{
  ℕ, ◌+◌, ◌%◌, ◌^◌, ◌≤◌, ◌<◌, ◌≡◌, refl, sym, ap, ◌∙◌, subst, false, ltb, some, List, ◌++◌, length,
  arith, length-append,
}
use native.Mathlib.Nat.{mod-add-mod, mod-eq_of_lt, mod-lt}
use smart_quant.Prelude.Word.{IsWord, add_64}
use smart_quant.Common.SpscQueue.Window.{window, length-window}
use smart_quant.Log.BinaryLogger.{
  BinaryLogger, Reader, ring_read, record_header, write, next, next_payload,
}
use smart_quant.Log.BinaryLogger.Ring.{put, window-put, window-append, ring_read-window}
use smart_quant.Log.BinaryLogger.Bytes.{
  append-cancel, take_all, length-record_header, header_time, header_length,
}
use smart_quant.Log.BinaryLogger.Twice.{ring_write_twice}

pub write-put :
    (l : BinaryLogger) (ts_ns : ℕ) (payload : List ℕ)
    → 0 < l.buf_size
    → length payload < 2 ^ 32
    → 12 + length payload ≤ l.buf_size
    → (write l ts_ns payload).buf
      ≡ put l.buf l.buf_size
          (l.write_pos % l.buf_size)
          (record_header ts_ns (length payload) ++ payload)
unfolding write
write-put l ts_ns payload p short fits = rw (mod-eq_of_lt short) (
    rw (take_all payload) (
      ring_write_twice l.buf l.buf_size (l.write_pos % l.buf_size)
        (record_header ts_ns (length payload)) payload (mod-lt l.write_pos p)
        (omega (arith, length-record_header ts_ns (length payload)))))

-- What is read of the ring after the write: the header, and behind it the payload.
written_parts :
    (l : BinaryLogger) (ts_ns : ℕ) (payload : List ℕ)
    → length l.buf ≡ l.buf_size
    → 0 < l.buf_size
    → length payload < 2 ^ 32
    → 12 + length payload ≤ l.buf_size
    → let buf = (write l ts_ns payload).buf in
      (ring_read buf l.buf_size l.write_pos 12 ≡ record_header ts_ns (length payload))
      × (ring_read buf l.buf_size (l.write_pos + 12) (length payload) ≡ payload)
written_parts l ts_ns payload sized p short fits =
    let n = length payload in
    let slots = l.buf_size in
    let off = l.write_pos % slots in
    let header = record_header ts_ns n in
    let within : off < slots = mod-lt l.write_pos p in
    let twelve : length header ≡ 12 = length-record_header ts_ns n in
    let all : length (header ++ payload) ≡ 12 + n =
      omega (arith, length-append header payload, twelve) in
    let buf = put l.buf slots off (header ++ payload) in
    let whole : window buf slots 0 off (12 + n) ≡ header ++ payload =
      subst (λ k. window buf slots 0 off k ≡ header ++ payload) all
        (window-put l.buf slots off (header ++ payload) (omega arith) within
          (omega (arith, all))) in
    let (front, back) =
      append-cancel (window buf slots 0 off 12) (window buf slots 0 ((off + 12) % slots) n) header
        payload (length-window buf slots 0 off 12 ∙ sym twelve)
        (sym (window-append 12 n buf slots off within) ∙ whole) in
    rw (write-put l ts_ns payload p short fits) (
      ring_read-window buf slots l.write_pos 12 p (omega arith) ∙ front,
      ring_read-window buf slots (l.write_pos + 12) n p (omega arith)
          ∙ ap (λ i. window buf slots 0 i n) (sym (mod-add-mod l.write_pos slots 12))
          ∙ back,
    )

-- The reader that stands before a record with the given end.
abbrev pub reader_at : List ℕ → ℕ → ℕ → ℕ → ℕ → Reader
reader_at buf buf_size read_pos end_pos records = record {
  buf = buf;
  buf_size = buf_size;
  write_pos = end_pos;
  end_pos = end_pos;
  read_pos = read_pos;
  total_records = records;
}

-- A reader that stands before a whole record gives it, and goes on behind it.
pub next_record :
    (r : Reader) (ts_ns : ℕ) (payload : List ℕ)
    → ring_read r.buf r.buf_size r.read_pos 12 ≡ record_header ts_ns (length payload)
    → ring_read r.buf r.buf_size (r.read_pos + 12) (length payload) ≡ payload
    → IsWord ts_ns
    → length payload < 2 ^ 32
    → r.read_pos + 12 + length payload ≤ r.end_pos
    → IsWord r.end_pos
    → next r ≡ (
      record r {
        read_pos = r.read_pos + 12 + length payload;
        total_records = add_64 r.total_records 1;
      },
      some (record { timestamp_ns = ts_ns; bytes = payload }),
    )
unfolding next next_payload
next_record r ts_ns payload front back w short there small =
    let n = length payload in
    let header_there : ltb r.end_pos (add_64 r.read_pos 12) ≡ false = ground arith in
    let data_pos : (r.read_pos + 12) % 2 ^ 64 ≡ r.read_pos + 12 = omega arith in
    let data_end : (r.read_pos + 12 + n) % 2 ^ 64 ≡ r.read_pos + 12 + n = omega arith in
    let payload_there : ltb r.end_pos (r.read_pos + 12 + n) ≡ false = ground arith in
    rw front (
      rw header_there (
        rw (header_time ts_ns n w) (
          rw (header_length ts_ns n short)
            (rw data_pos (rw data_end (rw payload_there (rw back refl)))))))

pub write_pos-write :
    (l : BinaryLogger) (ts_ns : ℕ) (payload : List ℕ)
    → length payload < 2 ^ 32
    → l.write_pos + 12 + length payload < 2 ^ 64
    → (write l ts_ns payload).write_pos ≡ l.write_pos + 12 + length payload
unfolding write
write_pos-write l ts_ns payload short small = omega arith

-- A record that fits in the ring is read back, with its time and its bytes, by a reader that stands
-- where it was written and knows the position after it, also where the header or the payload goes
-- past the end of the ring; the reader then stands at that position.
pub next-write :
    (l : BinaryLogger) (ts_ns : ℕ) (payload : List ℕ) (records : ℕ)
    → length l.buf ≡ l.buf_size
    → 0 < l.buf_size
    → IsWord ts_ns
    → length payload < 2 ^ 32
    → 12 + length payload ≤ l.buf_size
    → l.write_pos + 12 + length payload < 2 ^ 64
    → let l' = write l ts_ns payload in
      next (reader_at l'.buf l.buf_size l.write_pos l'.write_pos records) ≡ (
        reader_at l'.buf l.buf_size l'.write_pos l'.write_pos (add_64 records 1),
        some (record { timestamp_ns = ts_ns; bytes = payload }),
      )
next-write l ts_ns payload records sized p w short fits small =
    let (front, back) = written_parts l ts_ns payload sized p short fits in
    rw (write_pos-write l ts_ns payload short small) (
      next_record
        (reader_at (write l ts_ns payload).buf l.buf_size l.write_pos
          (l.write_pos + 12 + length payload) records)
        ts_ns payload front back w short (omega arith) small)
