-- ===== src/Log/BinaryLogger/Leaks.antt =====
-- What the constructors of src/log/binary_logger.cpp leave open.
use smart_quant.Prelude.{
  ℕ, ◌≡◌, refl, true, false, ltb, ◌==◌, List, [], ◌∷◌, length, ◌⊎◌, inl, inr, Bool-cases,
}
use smart_quant.Log.BinaryLogger.{header_size}
use smart_quant.Log.BinaryLogger.File.{
  System, LogError, invalid_argument, open_error, size_error, map_error, file_too_small, bad_magic,
  Handles, no_handles, Opened, SystemCall, open_fd, map_file, unmap, close, destroy_writer,
  destroy_reader, opened, thrown, create, open_file, magic_of, log_magic,
}

-- What a process holds after calls that succeeded, one after another.
abbrev pub held_after : Handles → List SystemCall → Handles
held_after h [] = h
held_after h (open_fd ∷ cs) = held_after (record h { descriptor = true }) cs
held_after h (close ∷ cs) = held_after (record h { descriptor = false }) cs
held_after h (map_file ∷ cs) = held_after (record h { mapping = true }) cs
held_after h (unmap ∷ cs) = held_after (record h { mapping = false }) cs
held_after h (_ ∷ cs) = held_after h cs

abbrev pub held : List SystemCall → Handles
held = held_after no_handles

abbrev pub both_handles : Handles
both_handles = record { descriptor = true; mapping = true }

-- The object is there, with both handles, and its destructor gives both back.
abbrev pub Owns : {A : Type 0} → (Handles → List SystemCall) → Opened A × List SystemCall → Type 0
Owns {A} destroy (r, calls) =
    ((a : A) × (r ≡ opened a))
    × (held calls ≡ both_handles)
    × (held_after (held calls) (destroy (held calls)) ≡ no_handles)

-- The exception leaves the process with the handles.
abbrev pub Throws : {A : Type 0} → LogError → Handles → Opened A × List SystemCall → Type 0
Throws e h (r, calls) = (r ≡ thrown e) × (held calls ≡ h)

-- Neither of the two exceptions that the reader's constructor throws itself.
abbrev pub IsSystemError : LogError → Type 0
IsSystemError file_too_small = ⊥
IsSystemError bad_magic = ⊥
IsSystemError invalid_argument = ⊥
IsSystemError _ = Unit {0}

writer_handles :
    (sys : System) (n : ℕ)
    → Owns destroy_writer (create sys n [])
      ⊎ ((e : LogError) × Throws e no_handles (create sys n []))
unfolding create destroy_writer
writer_handles sys n = elim (Bool-cases (n == 0)) [
  | inl z ↦ rw z (inr (_, (refl, refl)))
  | inr z ↦ rw z (elim (Bool-cases sys.opens) [
    | inr a ↦ rw a (inr (_, (refl, refl)))
    | inl a ↦ rw a (elim (Bool-cases sys.sizes) [
      | inr b ↦ rw b (inr (_, (refl, refl)))
      | inl b ↦ rw b (elim (Bool-cases sys.maps) [
        | inr c ↦ rw c (inr (_, (refl, refl)))
        | inl c ↦ rw c (inl ((_, refl), refl, refl))
      ])
    ])
  ])
]

reader_handles :
    (sys : System) (file : List ℕ)
    → let run = open_file sys file [] in
      Owns destroy_reader run
      ⊎ ((e : LogError) × IsSystemError e × Throws e no_handles run)
      ⊎ Throws file_too_small (record { descriptor = true; mapping = false }) run
      ⊎ Throws bad_magic both_handles run
unfolding open_file destroy_reader
reader_handles sys file = elim (Bool-cases sys.opens) [
  | inr a ↦ rw a (inr (inl (open_error, tt, (refl, refl))))
  | inl a ↦ rw a (elim (Bool-cases sys.sizes) [
    | inr b ↦ rw b (inr (inl (size_error, tt, (refl, refl))))
    | inl b ↦ rw b (elim (Bool-cases (ltb (length file) header_size)) [
      | inl s ↦ rw s (inr (inr (inl (refl, refl))))
      | inr s ↦ rw s (elim (Bool-cases sys.maps) [
        | inr c ↦ rw c (inr (inl (map_error, tt, (refl, refl))))
        | inl c ↦ rw c (elim (Bool-cases (magic_of file == log_magic)) [
          | inl m ↦ rw m (inl ((_, refl), refl, refl))
          | inr m ↦ rw m (inr (inr (inr (refl, refl))))
        ])
      ])
    ])
  ])
]

-- Whatever calls fail, the writer's constructor either throws and leaves nothing open and nothing
-- mapped, or makes an object whose destructor leaves nothing. The reader's does the same for the
-- exceptions of the system's calls; but when the file is too small it leaves the descriptor open, and
-- when the magic number is wrong the descriptor open and the file mapped.
pub handles_after_throw :
    (sys : System) (n : ℕ) (file : List ℕ)
    → let run = open_file sys file [] in
      (Owns destroy_writer (create sys n [])
        ⊎ ((e : LogError) × Throws e no_handles (create sys n [])))
      × (Owns destroy_reader run
          ⊎ ((e : LogError) × IsSystemError e × Throws e no_handles run)
          ⊎ Throws file_too_small (record { descriptor = true; mapping = false }) run
          ⊎ Throws bad_magic both_handles run)
handles_after_throw sys n file = (writer_handles sys n, reader_handles sys file)
