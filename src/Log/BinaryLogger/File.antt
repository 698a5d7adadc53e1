-- ===== src/Log/BinaryLogger/File.antt =====
-- The file of src/log/binary_logger.cpp: its header, and how a writer and a reader open it. What the
-- system's calls return is an argument.
use smart_quant.Prelude.{
  ℕ, Bool, true, false, not, ltb, ◌==◌, if◌then◌else◌, List, [], ◌∷◌, ◌++◌, length, take, drop,
  replicate,
}
use smart_quant.Prelude.Int.{ℤ, pos, pos_part, ltb_ℤ}
use smart_quant.Log.BinaryLogger.{
  BinaryLogger, Reader, header_size, round_up_page, bytes_of, of_bytes, open_reader,
}

-- `kLogMagic` and `kLogVersion`
abbrev pub log_magic : ℕ
log_magic = 0x474F4C5849465153

abbrev pub log_version : ℕ
log_version = 1

-- The padding of the header to a page.
unfoldable pub padding : List ℕ
padding = replicate 4064 0

-- The file with its header, as the mapping of a writer leaves it.
unfoldable pub file_of : BinaryLogger → List ℕ
unfolding bytes_of padding
file_of l =
    bytes_of 8 log_magic
    ++ (bytes_of 4 log_version
        ++ (bytes_of 4 0
            ++ (bytes_of 8 l.buf_size ++ (bytes_of 8 l.write_pos ++ (padding ++ l.buf)))))

-- The fields of a header that the reader looks at.
unfoldable pub magic_of : List ℕ → ℕ
unfolding of_bytes
magic_of file = of_bytes (take 8 file)

unfoldable pub buffer_size_of : List ℕ → ℕ
unfolding of_bytes
buffer_size_of file = of_bytes (take 8 (drop 16 file))

unfoldable pub write_pos_of : List ℕ → ℕ
unfolding of_bytes
write_pos_of file = of_bytes (take 8 (drop 24 file))

-- What the calls return: `sysconf`, and whether each of the others succeeds.
pub record System : Type 0 where
  pub page : ℤ
  pub opens : Bool
  -- `ftruncate` in the writer, `fstat` in the reader
  pub sizes : Bool
  pub maps : Bool

unfoldable pub page_size : ℤ → ℕ
page_size page = if ltb_ℤ (pos 0) page then pos_part page else 4096

pub data LogError : Type 0 where
  invalid_argument open_error size_error map_error file_too_small bad_magic : LogError

-- What is left of a constructor: the object, or the exception.
pub data Opened (A : Type 0) : Type 0 where
  opened : A → Opened A
  thrown : LogError → Opened A

-- The calls of the system that have an effect; `resize` is `ftruncate`, `stat` is `fstat`.
pub data SystemCall : Type 0 where
  open_fd resize stat map_file sync sync_async unmap close : SystemCall

-- A constructor's run: the calls that have succeeded so far are the state, and an exception ends it.
abbrev pub Io : Type 0 → Type 0
Io A = List SystemCall → Opened A × List SystemCall

infixl 5 ◌>>=◌ ◌>>◌
abbrev pub ◌>>=◌ : {A B : Type 0} → Io A → (A → Io B) → Io B
◌>>=◌ m f calls =
    let (a, calls') = m calls in elim a [ opened x ↦ f x calls' | thrown e ↦ (thrown e, calls') ]

abbrev pub ◌>>◌ : {B : Type 0} → Io (Unit {0}) → Io B → Io B
m >> k = m >>= λ _. k

abbrev pub done : {A : Type 0} → A → Io A
done a calls = (opened a, calls)

abbrev pub throw_error : {A : Type 0} → LogError → Io A
throw_error e calls = (thrown e, calls)

-- A call, which tells whether it succeeded.
abbrev pub call : SystemCall → Bool → Io Bool
call c true calls = (opened true, calls ++ c ∷ [])
call c false calls = (opened false, calls)

abbrev pub check : Bool → LogError → Io (Unit {0})
check true e = done tt
check false e = throw_error e

-- The same, with the descriptor closed before the exception.
abbrev pub check_or_close : Bool → LogError → Io (Unit {0})
check_or_close true e = done tt
check_or_close false e = call close true >>= λ _. throw_error e

-- The log that a writer starts with: `ftruncate` fills with zeros.
abbrev pub fresh : ℕ → BinaryLogger
fresh buf_size = record { buf = replicate buf_size 0; buf_size = buf_size; write_pos = 0 }

-- The constructor of the writer.
unfoldable pub create : System → ℕ → Io BinaryLogger
unfolding round_up_page page_size
create sys buffer_size = do
  check (not (buffer_size == 0)) invalid_argument
  fd ← call open_fd sys.opens
  check fd open_error
  resized ← call resize sys.sizes
  check_or_close resized size_error
  mapping ← call map_file sys.maps
  check_or_close mapping map_error
  done (fresh (round_up_page (page_size sys.page) buffer_size))

-- The mapping seen as a writer's.
unfoldable pub mapped : List ℕ → BinaryLogger
unfolding buffer_size_of write_pos_of
mapped file = record {
  buf = drop header_size file;
  buf_size = buffer_size_of file;
  write_pos = write_pos_of file;
}

-- The constructor of the reader, on the bytes of the file.
unfoldable pub open_file : System → List ℕ → Io Reader
unfolding magic_of mapped open_reader
open_file sys file = do
  fd ← call open_fd sys.opens
  check fd open_error
  known ← call stat sys.sizes
  check_or_close known size_error
  check (not (ltb (length file) header_size)) file_too_small
  mapping ← call map_file sys.maps
  check_or_close mapping map_error
  check (magic_of file == log_magic) bad_magic
  done (open_reader (mapped file))

-- What a process holds.
pub record Handles : Type 0 where
  pub descriptor : Bool
  pub mapping : Bool

abbrev pub no_handles : Handles
no_handles = record { descriptor = false; mapping = false }

abbrev pub call_if : Bool → List SystemCall → List SystemCall
call_if b calls = if b then calls else []

-- The calls of `flush` and of the destructors.
unfoldable pub flush : Handles → List SystemCall
flush h = call_if h.mapping (sync_async ∷ [])

unfoldable pub destroy_writer : Handles → List SystemCall
destroy_writer h = call_if h.mapping (sync ∷ unmap ∷ []) ++ call_if h.descriptor (close ∷ [])

unfoldable pub destroy_reader : Handles → List SystemCall
destroy_reader h = call_if h.mapping (unmap ∷ []) ++ call_if h.descriptor (close ∷ [])
