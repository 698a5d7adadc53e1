-- ===== src/Log/BinaryLogger/Ring.antt =====
-- The bytes that src/log/binary_logger.cpp writes across the end of its ring are the bytes it reads.
use smart_quant.Prelude.{
  ℕ, zero, suc, ◌+◌, ◌-◌, ◌%◌, ◌≤◌, ◌<◌, ◌≡◌, refl, sym, ap, ap₂, ◌∙◌, leb, List, [], ◌∷◌, ◌++◌,
  length, get_or, set, take, drop, get_or-set_self, get_or-set_ne, length-set, arith, Bool-cases,
  inl, inr,
}
use native.Mathlib.Nat.{mod-eq_of_lt, mod-lt, mod-add-mod, mod_self}
use smart_quant.Common.SpscQueue.Window.{window, mod_ne_start, shift}
use smart_quant.Log.BinaryLogger.{copy_to, copy_from, ring_write, ring_read}

-- Writing byte by byte, going round at `slots`.
unfoldable pub put : List ℕ → ℕ → ℕ → List ℕ → List ℕ
put buf slots off [] = buf
put buf slots off (c ∷ cs) = put (set buf off c) slots ((off + 1) % slots) cs

-- Going on from `off` by up to `slots - 1` bytes leaves the slot before `off` alone.
put-outside :
    (buf : List ℕ) (slots off t j : ℕ) (cs : List ℕ)
    → t < slots
    → off ≡ (t + j) % slots
    → 0 < j
    → j + length cs ≤ slots
    → get_or (put buf slots off cs) t 0 ≡ get_or buf t 0
unfolding put
put-outside buf slots off t j [] ht e p fits = refl
put-outside buf slots off t j (c ∷ cs) ht e p fits =
    put-outside (set buf off c) slots ((off + 1) % slots) t (suc j) cs ht
      (ap (λ i. (i + 1) % slots) e
        ∙ mod-add-mod (t + j) slots 1
        ∙ ap (λ i. i % slots) (omega arith))
      (omega arith) (omega arith)
    ∙ get_or-set_ne buf off t c 0 (rw e (mod_ne_start slots t j ht p (omega arith)))

pub length-put :
    (buf : List ℕ) (slots off : ℕ) (cs : List ℕ) → length (put buf slots off cs) ≡ length buf
unfolding put
length-put buf slots off [] = refl
length-put buf slots off (c ∷ cs) =
    length-put (set buf off c) slots ((off + 1) % slots) cs ∙ length-set buf off c

pub window-put :
    (buf : List ℕ) (slots off : ℕ) (cs : List ℕ)
    → slots ≤ length buf
    → off < slots
    → length cs ≤ slots
    → window (put buf slots off cs) slots 0 off (length cs) ≡ cs
unfolding window put
window-put buf slots off [] hb ho fits = refl
window-put buf slots off (c ∷ cs) hb ho fits =
    ap₂ ◌∷◌
      (put-outside (set buf off c) slots ((off + 1) % slots) off 1 cs ho refl (omega arith)
          (omega arith)
        ∙ get_or-set_self buf off c 0 (omega arith))
      (window-put (set buf off c) slots ((off + 1) % slots) cs (omega (arith, length-set buf off c))
        (mod-lt (off + 1) (omega arith)) (omega arith))

pub put-append :
    (xs ys : List ℕ) (buf : List ℕ) (slots off : ℕ)
    → off < slots
    → put buf slots off (xs ++ ys) ≡ put (put buf slots off xs) slots ((off + length xs) % slots) ys
unfolding put
put-append [] ys buf slots off h =
    let same : off + 0 ≡ off = omega arith in
    ap (λ i. put buf slots i ys) (sym (rw same (mod-eq_of_lt h)))
put-append (x ∷ xs) ys buf slots off h =
    put-append xs ys (set buf off x) slots ((off + 1) % slots) (mod-lt (off + 1) (omega arith))
    ∙ ap (λ i. put (put (set buf off x) slots ((off + 1) % slots) xs) slots i ys)
        (mod-add-mod (off + 1) slots (length xs) ∙ ap (λ i. i % slots) (omega arith))

pub copy_to-put :
    (cs buf : List ℕ) (slots off : ℕ)
    → off + length cs ≤ slots
    → copy_to buf off cs ≡ put buf slots off cs
unfolding copy_to put
copy_to-put [] buf slots off h = refl
copy_to-put (c ∷ []) buf slots off h = refl
copy_to-put (c ∷ c' ∷ cs) buf slots off h =
    copy_to-put (c' ∷ cs) (set buf off c) slots (off + 1) (omega arith)
    ∙ ap (λ i. put (set buf off c) slots i (c' ∷ cs)) (sym (mod-eq_of_lt (omega arith)))

copy_from-window :
    (n : ℕ) (buf : List ℕ) (slots off : ℕ)
    → off + n ≤ slots
    → copy_from buf off n ≡ window buf slots 0 off n
unfolding copy_from window
copy_from-window zero buf slots off h = refl
copy_from-window (suc zero) buf slots off h = refl
copy_from-window (suc (suc n)) buf slots off h =
    ap (λ xs. get_or buf off 0 ∷ xs)
      (copy_from-window (suc n) buf slots (off + 1) (omega arith)
        ∙ ap (λ i. window buf slots 0 i (suc n)) (sym (mod-eq_of_lt (omega arith))))

pub window-append :
    (n m : ℕ) (buf : List ℕ) (slots off : ℕ)
    → off < slots
    → window buf slots 0 off (n + m)
      ≡ window buf slots 0 off n ++ window buf slots 0 ((off + n) % slots) m
unfolding window
window-append zero m buf slots off h =
    let same : off + 0 ≡ off = omega arith in
    let same' : 0 + m ≡ m = omega arith in
    rw (same, same') (ap (λ i. window buf slots 0 i m) (sym (mod-eq_of_lt h)))
window-append (suc n) m buf slots off h =
    let same : suc n + m ≡ suc (n + m) = omega arith in
    rw same (
      ap (λ xs. get_or buf off 0 ∷ xs)
        (window-append n m buf slots ((off + 1) % slots) (mod-lt (off + 1) (omega arith))
          ∙ ap (λ i. window buf slots 0 ((off + 1) % slots) n ++ window buf slots 0 i m)
              (shift slots off n)))

pub take-drop : (n : ℕ) (xs : List ℕ) → take n xs ++ drop n xs ≡ xs
take-drop zero xs = refl
take-drop (suc n) [] = refl
take-drop (suc n) (x ∷ xs) = ap (◌∷◌ x) (take-drop n xs)

pub length-take : (n : ℕ) (xs : List ℕ) → n ≤ length xs → length (take n xs) ≡ n
length-take zero xs h = refl
length-take (suc n) [] h = absurd (omega arith)
length-take (suc n) (x ∷ xs) h = ap suc (length-take n xs (omega arith))

length-drop : (n : ℕ) (xs : List ℕ) → length (drop n xs) ≡ length xs - n
length-drop zero xs = omega arith
length-drop (suc n) [] = omega arith
length-drop (suc n) (x ∷ xs) = omega (arith, length-drop n xs)

-- A write in one or two pieces is the write that goes round.
pub ring_write-put :
    (buf : List ℕ) (slots off : ℕ) (src : List ℕ)
    → off < slots
    → length src ≤ slots
    → (ring_write buf slots off src).0 ≡ put buf slots off src
unfolding ring_write
ring_write-put buf slots off src h fits = elim (Bool-cases (leb (length src) (slots - off))) [
  | inl t ↦ rw t (copy_to-put src buf slots off (ground arith))
  | inr f ↦
      let far : slots - off < length src = ground arith in
      let front = take (slots - off) src in
      let taken : length front ≡ slots - off = length-take (slots - off) src (omega arith) in
      let round : (off + length front) % slots ≡ 0 =
        rw taken (ap (λ i. i % slots) (omega arith) ∙ mod_self slots) in
      rw f (
        ap (λ b. copy_to b 0 (drop (slots - off) src))
          (copy_to-put front buf slots off (omega (arith, taken)))
        ∙ copy_to-put (drop (slots - off) src) _ slots 0
            (omega (arith, length-drop (slots - off) src))
        ∙ ap (λ i. put (put buf slots off front) slots i (drop (slots - off) src)) (sym round)
        ∙ sym (put-append front (drop (slots - off) src) buf slots off h)
        ∙ ap (put buf slots off) (take-drop (slots - off) src))
]

-- A read in one or two pieces is the read that goes round.
pub ring_read-window :
    (buf : List ℕ) (slots pos n : ℕ)
    → 0 < slots
    → n ≤ slots
    → ring_read buf slots pos n ≡ window buf slots 0 (pos % slots) n
unfolding ring_read
ring_read-window buf slots pos n p fits = elim (Bool-cases (leb n (slots - pos % slots))) [
  | inl t ↦ rw t (copy_from-window n buf slots (pos % slots) (ground (arith, within)))
  | inr f ↦
      let far : slots - pos % slots < n = ground arith in
      let round : (pos % slots + (slots - pos % slots)) % slots ≡ 0 =
        ap (λ i. i % slots) (omega (arith, within)) ∙ mod_self slots in
      let whole : slots - pos % slots + (n - (slots - pos % slots)) ≡ n = omega arith in
      rw f (
        ap₂ ◌++◌
          (copy_from-window (slots - pos % slots) buf slots (pos % slots) (omega (arith, within)))
          (copy_from-window (n - (slots - pos % slots)) buf slots 0 (omega (arith, within))
            ∙ ap (λ i. window buf slots 0 i (n - (slots - pos % slots))) (sym round))
        ∙ sym (
            window-append (slots - pos % slots) (n - (slots - pos % slots)) buf slots (pos % slots)
              within)
        ∙ ap (window buf slots 0 (pos % slots)) whole)
]
  where
    within : pos % slots < slots
    within = mod-lt pos p

-- What is written at a position of the ring is what is read there, also where it goes past the end of
-- the ring, if it is no longer than the ring; and the ring keeps its size.
pub ring_read-ring_write :
    (buf : List ℕ) (slots pos : ℕ) (src : List ℕ)
    → length buf ≡ slots
    → 0 < slots
    → length src ≤ slots
    → let buf' = (ring_write buf slots (pos % slots) src).0 in
      (ring_read buf' slots pos (length src) ≡ src) × (length buf' ≡ slots)
ring_read-ring_write buf slots pos src e p fits =
    rw (ring_write-put buf slots (pos % slots) src (mod-lt pos p) fits) (
      ring_read-window _ slots pos (length src) p fits
          ∙ window-put buf slots (pos % slots) src (omega arith) (mod-lt pos p) fits,
      length-put buf slots (pos % slots) src ∙ e,
    )
