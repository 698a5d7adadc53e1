-- ===== src/Log/BinaryLogger/Header.antt =====
-- The header of the file of src/log/binary_logger.cpp, written and read.
use smart_quant.Prelude.{
  ℕ, suc, ◌+◌, ◌≡◌, refl, ap, ◌∙◌, List, [], ◌∷◌, ◌++◌, length, take, drop, arith, length-append,
  length-replicate,
}
use smart_quant.Prelude.Word.{IsWord}
use smart_quant.Log.BinaryLogger.{BinaryLogger, header_size, bytes_of, of_bytes}
use smart_quant.Log.BinaryLogger.Bytes.{
  of_bytes-bytes_of, length-bytes_of, take-append, drop-append,
}
use smart_quant.Log.BinaryLogger.File.{
  file_of, mapped, magic_of, buffer_size_of, write_pos_of, log_magic, log_version, padding,
}

drop-append_more : (n m : ℕ) (xs ys : List ℕ) → length xs ≡ n → drop (n + m) (xs ++ ys) ≡ drop m ys
drop-append_more n m [] ys e = let none : n + m ≡ m = omega arith in rw none refl
drop-append_more n m (x ∷ xs) ys e =
    let one : n + m ≡ suc (length xs + m) = omega arith in
    rw one (drop-append_more (length xs) m xs ys refl)

length-padding : length padding ≡ 4064
unfolding padding
length-padding = length-replicate {A = ℕ} 4064 0

-- The bytes of the file from each field on.
abbrev from_padding : BinaryLogger → List ℕ
from_padding l = padding ++ l.buf

abbrev from_write_pos : BinaryLogger → List ℕ
from_write_pos l = bytes_of 8 l.write_pos ++ from_padding l

abbrev from_buffer_size : BinaryLogger → List ℕ
from_buffer_size l = bytes_of 8 l.buf_size ++ from_write_pos l

abbrev from_reserved : BinaryLogger → List ℕ
from_reserved l = bytes_of 4 0 ++ from_buffer_size l

abbrev from_version : BinaryLogger → List ℕ
from_version l = bytes_of 4 log_version ++ from_reserved l

module _ (l : BinaryLogger) where
  -- The first word of the file.
  pub magic_of-file_of : magic_of (file_of l) ≡ log_magic
  unfolding magic_of file_of
  magic_of-file_of =
      ap of_bytes
        (take-append 8 (bytes_of 8 log_magic) (from_version l) (length-bytes_of 8 log_magic))
      ∙ of_bytes-bytes_of 8 log_magic (omega arith)

  drop_more : (m : ℕ) → drop (16 + m) (file_of l) ≡ drop m (from_buffer_size l)
  unfolding file_of
  drop_more m =
      let first : 16 + m ≡ 8 + (8 + m) = omega arith in
      let second : 8 + m ≡ 4 + (4 + m) = omega arith in
      rw first (
        drop-append_more 8 (8 + m) (bytes_of 8 log_magic) (from_version l)
          (length-bytes_of 8 log_magic)
        ∙ rw second (
            drop-append_more 4 (4 + m) (bytes_of 4 log_version) (from_reserved l)
              (length-bytes_of 4 log_version)
            ∙ drop-append_more 4 m (bytes_of 4 0) (from_buffer_size l) (length-bytes_of 4 0)))

  buffer_size_of-file_of : IsWord l.buf_size → buffer_size_of (file_of l) ≡ l.buf_size
  unfolding buffer_size_of
  buffer_size_of-file_of w =
      ap (λ xs. of_bytes (take 8 xs)) (drop_more 0)
      ∙ ap of_bytes
          (take-append 8 (bytes_of 8 l.buf_size) (from_write_pos l) (length-bytes_of 8 l.buf_size))
      ∙ of_bytes-bytes_of 8 l.buf_size (omega arith)

  write_pos_of-file_of : IsWord l.write_pos → write_pos_of (file_of l) ≡ l.write_pos
  unfolding write_pos_of
  write_pos_of-file_of w =
      ap (λ xs. of_bytes (take 8 xs))
        (drop_more 8
          ∙ drop-append 8 (bytes_of 8 l.buf_size) (from_write_pos l) (length-bytes_of 8 l.buf_size))
      ∙ ap of_bytes
          (take-append 8 (bytes_of 8 l.write_pos) (from_padding l) (length-bytes_of 8 l.write_pos))
      ∙ of_bytes-bytes_of 8 l.write_pos (omega arith)

  ring_of-file_of : drop header_size (file_of l) ≡ l.buf
  ring_of-file_of =
      drop_more 4080
      ∙ drop-append_more 8 4072 (bytes_of 8 l.buf_size) (from_write_pos l)
          (length-bytes_of 8 l.buf_size)
      ∙ drop-append_more 8 4064 (bytes_of 8 l.write_pos) (from_padding l)
          (length-bytes_of 8 l.write_pos)
      ∙ drop-append 4064 padding l.buf length-padding

  pub length-file_of : length (file_of l) ≡ header_size + length l.buf
  unfolding file_of
  length-file_of = omega (
    arith,
    length-append (bytes_of 8 log_magic) (from_version l),
    length-append (bytes_of 4 log_version) (from_reserved l),
    length-append (bytes_of 4 0) (from_buffer_size l),
    length-append (bytes_of 8 l.buf_size) (from_write_pos l),
    length-append (bytes_of 8 l.write_pos) (from_padding l),
    length-append padding l.buf,
    length-bytes_of 8 log_magic,
    length-bytes_of 4 log_version,
    length-bytes_of 4 0,
    length-bytes_of 8 l.buf_size,
    length-bytes_of 8 l.write_pos,
    length-padding,
  )

pub mapped-file_of :
    (l : BinaryLogger) → IsWord l.buf_size → IsWord l.write_pos → mapped (file_of l) ≡ l
unfolding mapped
mapped-file_of l w v =
    rw (ring_of-file_of l) (rw (buffer_size_of-file_of l w) (rw (write_pos_of-file_of l v) refl))
