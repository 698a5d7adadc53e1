-- ===== src/Log/BinaryLogger.antt =====
-- include/smartquant/log/binary_logger.hpp and src/log/binary_logger.cpp: the ring of records in a
-- mapped file. The file and the mapping are left out; the ring is its bytes, lowest first in a number.
pub mod Ring
pub mod Bytes
pub mod Twice
pub mod RoundTrip
pub mod Encoded
pub mod Replay
pub mod File
pub mod Header
pub mod Opening
pub mod Leaks
mod Tests
use smart_quant.Prelude.{
  ℕ, zero, suc, ◌+◌, ◌-◌, ◌*◌, ◌/◌, ◌%◌, ◌^◌, Bool, true, false, ltb, leb, ◌==◌, if◌then◌else◌,
  Option, none, some, List, [], ◌∷◌, ◌++◌, length, get_or, set, take, drop, replicate,
}
use smart_quant.Prelude.Word.{add_64, sub_64}

-- `kHeaderSize` and `kRecordHeaderSize`
abbrev pub header_size : ℕ
header_size = 4096

abbrev pub record_header_size : ℕ
record_header_size = 12

-- `round_up_page`, in a system with pages of `ps` bytes.
unfoldable pub round_up_page : ℕ → ℕ → ℕ
round_up_page ps n = sub_64 (add_64 n ps) 1 / ps * ps

-- `memcpy` to an offset of the ring; past its end the source would write outside the mapping.
unfoldable pub copy_to : List ℕ → ℕ → List ℕ → List ℕ
copy_to buf off [] = buf
copy_to buf off (c ∷ cs) = copy_to (set buf off c) (off + 1) cs

-- `memcpy` of `n` bytes from an offset of the ring.
unfoldable pub copy_from : List ℕ → ℕ → ℕ → List ℕ
copy_from buf off zero = []
copy_from buf off (suc n) = get_or buf off 0 ∷ copy_from buf (off + 1) n

-- The ring and the offset after a write.
unfoldable pub ring_write : List ℕ → ℕ → ℕ → List ℕ → List ℕ × ℕ
unfolding copy_to
ring_write buf buf_size off src =
    let n = length src in
    let avail = buf_size - off in
    if leb n avail
    then (copy_to buf off src, off + n)
    else (copy_to (copy_to buf off (take avail src)) 0 (drop avail src), n - avail)

-- The bytes from a position on, as `ring_read_into` copies them.
unfoldable pub ring_read : List ℕ → ℕ → ℕ → ℕ → List ℕ
unfolding copy_from
ring_read buf buf_size read_pos n =
    let off = read_pos % buf_size in
    let avail = buf_size - off in
    if leb n avail
    then copy_from buf off n
    else copy_from buf off avail ++ copy_from buf 0 (n - avail)

-- `n` bytes of a number.
unfoldable pub bytes_of : ℕ → ℕ → List ℕ
bytes_of zero v = []
bytes_of (suc n) v = v % 256 ∷ bytes_of n (v / 256)

unfoldable pub of_bytes : List ℕ → ℕ
of_bytes [] = 0
of_bytes (b ∷ bs) = b + of_bytes bs * 256

-- The writer's side of the mapping.
pub record BinaryLogger : Type 0 where
  pub buf : List ℕ
  pub buf_size : ℕ
  pub write_pos : ℕ

-- The header of a record and its payload.
unfoldable pub record_header : ℕ → ℕ → List ℕ
unfolding bytes_of
record_header ts_ns len = bytes_of 8 ts_ns ++ bytes_of 4 len

-- The length of the payload is cut to 32 bits, as the caller with a text does.
unfoldable pub write : BinaryLogger → ℕ → List ℕ → BinaryLogger
unfolding ring_write record_header
write l ts_ns payload =
    let len = length payload % 2 ^ 32 in
    let (buf', off') =
      ring_write l.buf l.buf_size (l.write_pos % l.buf_size) (record_header ts_ns len) in
    record l {
      buf = (ring_write buf' l.buf_size off' (take len payload)).0;
      write_pos = add_64 l.write_pos (record_header_size + len);
    }

pub record Entry : Type 0 where
  pub timestamp_ns : ℕ
  pub bytes : List ℕ

pub record Reader : Type 0 where
  pub buf : List ℕ
  pub buf_size : ℕ
  -- the writer's position in the mapping, and its snapshot
  pub write_pos : ℕ
  pub end_pos : ℕ
  pub read_pos : ℕ
  pub total_records : ℕ

unfoldable pub total_written : BinaryLogger → ℕ
total_written l = l.write_pos

unfoldable pub bytes_available : Reader → ℕ
bytes_available r = sub_64 r.end_pos r.read_pos

-- The position of the oldest byte that is still in the ring.
abbrev pub oldest_pos : ℕ → ℕ → ℕ
oldest_pos end_pos buf_size = if ltb buf_size end_pos then end_pos - buf_size else 0

unfoldable pub rewind : Reader → Reader
rewind r = record r {
  end_pos = r.write_pos;
  read_pos = oldest_pos r.write_pos r.buf_size;
  total_records = 0;
}

-- The end of the constructor, on the mapping that a writer left.
unfoldable pub open_reader : BinaryLogger → Reader
open_reader l = record {
  buf = l.buf;
  buf_size = l.buf_size;
  write_pos = l.write_pos;
  end_pos = l.write_pos;
  read_pos = oldest_pos l.write_pos l.buf_size;
  total_records = 0;
}

-- The record whose header is read, if all of it is there.
unfoldable pub next_payload : Reader → ℕ → ℕ → Reader × Option Entry
unfolding ring_read
next_payload r ts_ns len =
    let data_pos = add_64 r.read_pos record_header_size in
    if ltb r.end_pos (add_64 data_pos len) then (r, none) else (
      record r { read_pos = add_64 data_pos len; total_records = add_64 r.total_records 1 },
      some (record { timestamp_ns = ts_ns; bytes = ring_read r.buf r.buf_size data_pos len }),
    )

unfoldable pub next : Reader → Reader × Option Entry
unfolding ring_read next_payload of_bytes
next r =
    let header = ring_read r.buf r.buf_size r.read_pos record_header_size in
    if ltb r.end_pos (add_64 r.read_pos record_header_size)
    then (r, none)
    else next_payload r (of_bytes (take 8 header)) (of_bytes (drop 8 header))
