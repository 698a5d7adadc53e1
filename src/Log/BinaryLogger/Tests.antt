-- ===== src/Log/BinaryLogger/Tests.antt =====
-- Runs of src/log/binary_logger.cpp, and its theorems at a ring of 16 bytes.
use smart_quant.Prelude.{ℕ, ◌≡◌, ◌⊎◌, refl, true, false, some, List, [], ◌∷◌, replicate, arith}
use smart_quant.Prelude.Int.{pos}
use smart_quant.Log.BinaryLogger.{
  BinaryLogger, Reader, Entry, bytes_of, record_header, round_up_page, write, next, open_reader,
}
use smart_quant.Log.BinaryLogger.RoundTrip.{reader_at}
use smart_quant.Log.BinaryLogger.Replay.{read_all-write_all, read_all}
use smart_quant.Log.BinaryLogger.Encoded.{write_all, encode, encode_all}
use smart_quant.Log.BinaryLogger.File.{
  System, LogError, destroy_writer, destroy_reader, no_handles, file_too_small, bad_magic, opened,
  create, open_file, file_of, fresh, log_magic, page_size,
}
use smart_quant.Log.BinaryLogger.Opening.{log_round_trip}
use smart_quant.Log.BinaryLogger.Leaks.{
  Owns, Throws, IsSystemError, both_handles, handles_after_throw,
}

page_values : (round_up_page 4096 1 ≡ 4096) × (round_up_page 4096 8192 ≡ 8192)
unfolding round_up_page
page_values = (refl, refl)

abbrev ring : List ℕ
ring = replicate 16 0

abbrev word : List ℕ
word = 7 ∷ 8 ∷ 9 ∷ []

-- The ring is at its last byte.
abbrev logger : BinaryLogger
logger = record { buf = ring; buf_size = 16; write_pos = 31 }

abbrev empty_logger : BinaryLogger
empty_logger = record { buf = ring; buf_size = 16; write_pos = 0 }

first_entry :
    (next (open_reader (write empty_logger 5 word))).1
    ≡ some (record { timestamp_ns = 5; bytes = word })
unfolding next open_reader write
first_entry = refl

-- A system with pages of 4096 bytes on which every call succeeds.
abbrev working : System
working = record { page = pos 4096; opens = true; sizes = true; maps = true }

abbrev messages : List Entry
messages =
    record { timestamp_ns = 5; bytes = word }
    ∷ record { timestamp_ns = 6; bytes = [] }
    ∷ record { timestamp_ns = 6; bytes = 1 ∷ [] }
    ∷ []

-- "SQFIXLOG"
magic_text : bytes_of 8 log_magic ≡ 83 ∷ 81 ∷ 70 ∷ 73 ∷ 88 ∷ 76 ∷ 79 ∷ 71 ∷ []
unfolding bytes_of
magic_text = refl

log_round_trip_example :
    (r : Reader) × ((open_file working (file_of (write_all (fresh 4096) messages)) []).0 ≡ opened r)
    × (read_all 4 r ≡ messages)
unfolding create page_size encode_all encode record_header
log_round_trip_example =
    log_round_trip working 1 messages (fresh 4096) (omega arith) (omega arith) refl refl refl refl
      (omega arith) (omega arith)

-- A file of no bytes is too small.
handles_after_throw_example :
    let run = open_file working [] [] in
    (Owns destroy_writer (create working 1 [])
      ⊎ ((e : LogError) × Throws e no_handles (create working 1 [])))
    × (Owns destroy_reader run
        ⊎ ((e : LogError) × IsSystemError e × Throws e no_handles run)
        ⊎ Throws file_too_small (record { descriptor = true; mapping = false }) run
        ⊎ Throws bad_magic both_handles run)
handles_after_throw_example = handles_after_throw working 1 []

-- A ring of 40 bytes at its last byte, and two records that fill it.
abbrev at_end : BinaryLogger
at_end = record { buf = replicate 40 0; buf_size = 40; write_pos = 79 }

abbrev filling : List Entry
filling = record { timestamp_ns = 5; bytes = word } ∷ record { timestamp_ns = 6; bytes = word } ∷ []

read_all-write_all_example :
    let l' = write_all at_end filling in
    read_all 3 (reader_at l'.buf 40 79 l'.write_pos 0) ≡ filling
unfolding encode_all encode record_header
read_all-write_all_example =
    read_all-write_all at_end filling refl (omega arith) (omega arith) (omega arith) (omega arith)
