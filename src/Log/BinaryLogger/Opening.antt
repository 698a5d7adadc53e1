-- ===== src/Log/BinaryLogger/Opening.antt =====
-- Opening the file of src/log/binary_logger.cpp, and the log of one run read in the next.
use smart_quant.Prelude.{
  ℕ, suc, ◌+◌, ◌-◌, ◌/◌, ◌%◌, ◌^◌, ◌≤◌, ◌<◌, ◌≡◌, refl, sym, ap, ◌∙◌, subst, true, false, ltb, ◌==◌,
  List, [], ◌∷◌, length, All, arith, length-replicate,
}
use native.Mathlib.Nat.{div-add-mod', mod-lt, mul-mod_left}
use smart_quant.Prelude.Int.{ℤ}
use smart_quant.Prelude.Word.{IsWord}
use smart_quant.Log.BinaryLogger.{
  BinaryLogger, Reader, Entry, header_size, round_up_page, open_reader, write,
}
use smart_quant.Log.BinaryLogger.RoundTrip.{reader_at}
use smart_quant.Log.BinaryLogger.Replay.{read_all-write_all, read_all}
use smart_quant.Log.BinaryLogger.Encoded.{write_all-put, IsRecord, write_all, encode_all}
use smart_quant.Log.BinaryLogger.Header.{magic_of-file_of, length-file_of, mapped-file_of}
use smart_quant.Log.BinaryLogger.File.{
  System, invalid_argument, opened, thrown, create, open_file, file_of, fresh, magic_of, log_magic,
  page_size,
}

opened-cancel : {A : Type 0} {x y : A} → opened x ≡ opened y → x ≡ y
opened-cancel h = cc

page_size-pos : (page : ℤ) → 0 < page_size page
unfolding page_size
page_size-pos page = ground arith

-- The size is rounded up to the next whole page.
round_up_page-bounds :
    (ps n : ℕ)
    → 0 < ps
    → 0 < n
    → n + ps < 2 ^ 64
    → (n ≤ round_up_page ps n) × (round_up_page ps n < n + ps) × (round_up_page ps n % ps ≡ 0)
unfolding round_up_page
round_up_page-bounds ps n p q room =
    let m = n + ps - 1 in
    let same : (n + ps) % 2 ^ 64 ≡ n + ps = omega arith in
    let less : (n + ps + 2 ^ 64 - 1) % 2 ^ 64 ≡ m = omega arith in
    rw (same, less)
      (
        omega (arith, div-add-mod' m ps, mod-lt m p),
        omega (arith, div-add-mod' m ps, mod-lt m p),
        mul-mod_left (m / ps) ps,
      )

-- With a buffer size that leaves room for a page, the writer's constructor throws for a size of zero,
-- and otherwise, if the system's calls succeed, starts an empty log whose ring is that size rounded up
-- to whole pages and filled with zeros.
pub create-fresh :
    (sys : System) (n : ℕ)
    → n + page_size sys.page < 2 ^ 64
    → sys.opens ≡ true
    → sys.sizes ≡ true
    → sys.maps ≡ true
    → (n ≡ 0 → (create sys n []).0 ≡ thrown invalid_argument)
      × (0 < n
          → (size : ℕ) × ((create sys n []).0 ≡ opened (fresh size))
            × (n ≤ size)
            × (size < n + page_size sys.page)
            × (size % page_size sys.page ≡ 0))
unfolding create
create-fresh sys n room a b c =
    rw (a, b, c)
      (
        λ e. ground arith,
        λ p.
            let bounds =
              round_up_page-bounds (page_size sys.page) n (page_size-pos sys.page) p room in
            let some_size : (n == 0) ≡ false = ground arith in
            rw some_size (round_up_page (page_size sys.page) n, refl, bounds.0, bounds.1, bounds.2),
      )

-- A file that a writer left is opened by a reader as the mapping that it was.
open_file-file_of :
    (sys : System) (l : BinaryLogger)
    → sys.opens ≡ true
    → sys.sizes ≡ true
    → sys.maps ≡ true
    → IsWord l.buf_size
    → IsWord l.write_pos
    → (open_file sys (file_of l) []).0 ≡ opened (open_reader l)
unfolding open_file
open_file-file_of sys l a b c w v =
    let long : ltb (length (file_of l)) header_size ≡ false = ground (arith, length-file_of l) in
    let known : (magic_of (file_of l) == log_magic) ≡ true = rw (magic_of-file_of l) refl in
    rw (a, b, c) (rw long (rw known (ap (λ m. opened (open_reader m)) (mapped-file_of l w v))))

-- The reader of a log that fits in its ring starts at the log's first byte.
open_reader_whole :
    (l : BinaryLogger)
    → l.write_pos ≤ l.buf_size
    → open_reader l ≡ reader_at l.buf l.buf_size 0 l.write_pos 0
unfolding open_reader
open_reader_whole l h =
    let whole : ltb l.buf_size l.write_pos ≡ false = ground arith in rw whole refl

buf_size-write_all : (es : List Entry) (l : BinaryLogger) → (write_all l es).buf_size ≡ l.buf_size
unfolding write_all write
buf_size-write_all [] l = refl
buf_size-write_all (e ∷ es) l = buf_size-write_all es (write l e.timestamp_ns e.bytes)

fresh_round_trip :
    (sys : System) (size : ℕ) (es : List Entry)
    → 0 < size
    → size < 2 ^ 63
    → sys.opens ≡ true
    → sys.sizes ≡ true
    → sys.maps ≡ true
    → All IsRecord es
    → length (encode_all es) ≤ size
    → (r : Reader) × ((open_file sys (file_of (write_all (fresh size) es)) []).0 ≡ opened r)
      × (read_all (suc (length es)) r ≡ es)
fresh_round_trip sys size es p small a b c rs fits =
    let l = write_all (fresh size) es in
    let kept = buf_size-write_all es (fresh size) in
    let (bytes, end) = write_all-put es (fresh size) p rs fits (omega arith) in
    (
      open_reader l,
      open_file-file_of sys l a b c (omega arith) (omega arith),
      ap (read_all (suc (length es)))
            (open_reader_whole l (omega arith) ∙ ap (λ k. reader_at l.buf k 0 l.write_pos 0) kept)
          ∙ read_all-write_all (fresh size) es (length-replicate {A = ℕ} size 0) p rs fits
              (omega arith),
    )

-- A log that is created with a buffer size `n > 0`, with the system's calls succeeding, and written
-- with messages of fewer than 2^32 bytes whose records fit in the ring: its file is opened by a reader
-- that gives exactly these messages with their times, in order, and then no more.
pub log_round_trip :
    (sys : System) (n : ℕ) (es : List Entry) (l : BinaryLogger)
    → 0 < n
    → n + page_size sys.page < 2 ^ 63
    → sys.opens ≡ true
    → sys.sizes ≡ true
    → sys.maps ≡ true
    → (create sys n []).0 ≡ opened l
    → All IsRecord es
    → length (encode_all es) ≤ l.buf_size
    → (r : Reader) × ((open_file sys (file_of (write_all l es)) []).0 ≡ opened r)
      × (read_all (suc (length es)) r ≡ es)
log_round_trip sys n es l p room a b c made rs fits =
    let (size, made', large, small, _) = (create-fresh sys n (omega arith) a b c).1 p in
    let same : l ≡ fresh size = opened-cancel (sym made ∙ made') in
    subst
      (λ m.
        length (encode_all es) ≤ m.buf_size
        → (r : Reader) × ((open_file sys (file_of (write_all m es)) []).0 ≡ opened r)
          × (read_all (suc (length es)) r ≡ es))
      (sym same) (fresh_round_trip sys size es (omega arith) (omega arith) a b c rs) fits
