-- ===== src/Log/BinaryLogger/Replay.antt =====
-- A log that src/log/binary_logger.cpp writes, read from where its writing began.
use smart_quant.Prelude.{
  ℕ, zero, suc, ◌+◌, ◌%◌, ◌^◌, ◌≤◌, ◌<◌, ◌≡◌, refl, sym, ap, ◌∙◌, subst, true, ltb, Option, none,
  some, List, [], ◌∷◌, ◌++◌, length, All, arith, length-append,
}
use native.Mathlib.Nat.{mod-add-mod, mod-lt}
use smart_quant.Prelude.Word.{IsWord, add_64}
use smart_quant.Common.SpscQueue.Window.{window, length-window}
use smart_quant.Log.BinaryLogger.{BinaryLogger, Reader, Entry, record_header, next}
use smart_quant.Log.BinaryLogger.Ring.{put, window-put, window-append, ring_read-window}
use smart_quant.Log.BinaryLogger.Bytes.{append-cancel, length-record_header}
use smart_quant.Log.BinaryLogger.RoundTrip.{reader_at, next_record}
use smart_quant.Log.BinaryLogger.Encoded.{
  write_all, encode, encode_all, IsRecord, length-encode, length-encode_all, write_all-put,
}

abbrev pub with_entry : Option Entry → List Entry → List Entry
with_entry none es = []
with_entry (some e) es = e ∷ es

-- `next` until it gives no record, on at most so many rounds.
unfoldable pub read_all : ℕ → Reader → List Entry
read_all zero r = []
read_all (suc k) r = with_entry (next r).1 (read_all k (next r).0)

nothing_left :
    (r : Reader) → r.end_pos ≡ r.read_pos + length (encode_all []) → r.end_pos ≡ r.read_pos
unfolding encode_all
nothing_left r e = omega arith

-- Behind the last record there is none.
next_end : (r : Reader) → r.end_pos ≡ r.read_pos → r.read_pos + 12 < 2 ^ 64 → next r ≡ (r, none)
unfolding next
next_end r e room =
    let over : ltb r.end_pos (add_64 r.read_pos 12) ≡ true = ground arith in rw over refl

-- The bytes from a position on begin with a text if the text is there.
split_window :
    (buf xs ys : List ℕ) (slots pos : ℕ)
    → 0 < slots
    → window buf slots 0 (pos % slots) (length xs + length ys) ≡ xs ++ ys
    → (window buf slots 0 (pos % slots) (length xs) ≡ xs)
      × (window buf slots 0 ((pos + length xs) % slots) (length ys) ≡ ys)
split_window buf xs ys slots pos p e =
    let (front, back) =
      append-cancel (window buf slots 0 (pos % slots) (length xs))
        (window buf slots 0 ((pos % slots + length xs) % slots) (length ys)) xs ys
        (length-window buf slots 0 (pos % slots) (length xs))
        (sym (window-append (length xs) (length ys) buf slots (pos % slots) (mod-lt pos p)) ∙ e) in
    (
      front,
      ap (λ i. window buf slots 0 i (length ys)) (sym (mod-add-mod pos slots (length xs))) ∙ back,
    )

-- A reader at the first byte of a record whose bytes are there.
next-encode :
    (r : Reader) (e : Entry)
    → 0 < r.buf_size
    → IsRecord e
    → 12 + length e.bytes ≤ r.buf_size
    → window r.buf r.buf_size 0 (r.read_pos % r.buf_size) (length (encode e)) ≡ encode e
    → r.read_pos + 12 + length e.bytes ≤ r.end_pos
    → IsWord r.end_pos
    → next r ≡ (
      record r {
        read_pos = r.read_pos + 12 + length e.bytes;
        total_records = add_64 r.total_records 1;
      },
      some e,
    )
unfolding encode
next-encode r e p (w, short) fits there room small =
    let n = length e.bytes in
    let header = record_header e.timestamp_ns n in
    let twelve = length-record_header e.timestamp_ns n in
    let (front, back) = split_window r.buf header e.bytes r.buf_size r.read_pos p (
      subst (λ k. window r.buf r.buf_size 0 (r.read_pos % r.buf_size) k ≡ header ++ e.bytes)
        (length-append header e.bytes) there) in
    next_record r e.timestamp_ns e.bytes
      (ring_read-window r.buf r.buf_size r.read_pos 12 p (omega arith)
        ∙ subst (λ k. window r.buf r.buf_size 0 (r.read_pos % r.buf_size) k ≡ header) twelve front)
      (ring_read-window r.buf r.buf_size (r.read_pos + 12) n p (omega arith)
        ∙ subst (λ k. window r.buf r.buf_size 0 ((r.read_pos + k) % r.buf_size) n ≡ e.bytes) twelve
            back)
      w short room small

whole_window :
    (r : Reader) (e : Entry) (es : List Entry)
    → window r.buf r.buf_size 0 (r.read_pos % r.buf_size) (length (encode_all (e ∷ es)))
      ≡ encode_all (e ∷ es)
    → window r.buf r.buf_size 0
        (r.read_pos % r.buf_size)
        (length (encode e) + length (encode_all es))
      ≡ encode e ++ encode_all es
unfolding encode_all
whole_window r e es there =
    subst (λ k. window r.buf r.buf_size 0 (r.read_pos % r.buf_size) k ≡ encode e ++ encode_all es)
      (length-append (encode e) (encode_all es)) there

-- A reader before the bytes of a log reads the log.
read_all-window :
    (es : List Entry) (r : Reader)
    → 0 < r.buf_size
    → All IsRecord es
    → length (encode_all es) ≤ r.buf_size
    → window r.buf r.buf_size 0 (r.read_pos % r.buf_size) (length (encode_all es)) ≡ encode_all es
    → r.end_pos ≡ r.read_pos + length (encode_all es)
    → r.end_pos + 12 < 2 ^ 64
    → read_all (suc (length es)) r ≡ es
unfolding read_all
read_all-window [] r p rs fits there end room =
    let none_left : r.end_pos ≡ r.read_pos = nothing_left r end in
    rw (next_end r none_left (omega arith)) refl
read_all-window (e ∷ es) r p (ok, rs) fits there end room =
    let n = length e.bytes in
    let sized = length-encode_all e es in
    let one = length-encode e in
    let (front, back) =
      split_window r.buf (encode e) (encode_all es) r.buf_size r.read_pos p
        (whole_window r e es there) in
    let step = next-encode r e p ok (omega arith) front (omega arith) (omega arith) in
    let r' = record r {
      read_pos = r.read_pos + 12 + n;
      total_records = add_64 r.total_records 1;
    } in
    let after : r.read_pos + length (encode e) ≡ r.read_pos + 12 + n = omega arith in
    ap (λ s. with_entry s.1 (read_all (suc (length es)) s.0)) step
    ∙ ap (λ xs. e ∷ xs)
        (read_all-window es r' p rs (omega arith)
          (subst
            (λ k.
              window r.buf r.buf_size 0 (k % r.buf_size) (length (encode_all es)) ≡ encode_all es)
            after back)
          (omega arith) room)

-- Messages whose records fit in the ring, written from any position on, are what a reader that stands
-- there gives.
pub read_all-write_all :
    (l : BinaryLogger) (es : List Entry)
    → length l.buf ≡ l.buf_size
    → 0 < l.buf_size
    → All IsRecord es
    → length (encode_all es) ≤ l.buf_size
    → l.write_pos + length (encode_all es) + 12 < 2 ^ 64
    → let l' = write_all l es in
      read_all (suc (length es)) (reader_at l'.buf l.buf_size l.write_pos l'.write_pos 0) ≡ es
read_all-write_all l es sized p rs fits room =
    let (bytes, end) = write_all-put es l p rs fits (omega arith) in
    rw end (
      rw bytes (
        read_all-window es
          (reader_at (put l.buf l.buf_size (l.write_pos % l.buf_size) (encode_all es)) l.buf_size
            l.write_pos (l.write_pos + length (encode_all es)) 0)
          p rs fits
          (window-put l.buf l.buf_size (l.write_pos % l.buf_size) (encode_all es) (omega arith)
            (mod-lt l.write_pos p) fits)
          refl room))
