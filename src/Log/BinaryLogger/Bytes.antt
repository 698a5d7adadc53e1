-- ===== src/Log/BinaryLogger/Bytes.antt =====
-- The header of a record in src/log/binary_logger.cpp as bytes, and parts of a text.
use smart_quant.Prelude.{
  ℕ, zero, suc, ◌/◌, ◌^◌, ◌<◌, ◌≡◌, refl, ap, ap₂, ◌∙◌, List, [], ◌∷◌, ◌++◌, length, take, drop,
  arith, length-append, head-cancel, tail-cancel,
}
use native.Mathlib.Nat.{pow-suc}
use smart_quant.Prelude.Word.{IsWord}
use smart_quant.Log.BinaryLogger.{bytes_of, of_bytes, record_header}

pub of_bytes-bytes_of : (n v : ℕ) → v < 256 ^ n → of_bytes (bytes_of n v) ≡ v
unfolding of_bytes bytes_of
of_bytes-bytes_of zero v h = omega arith
of_bytes-bytes_of (suc n) v h =
    omega (arith, of_bytes-bytes_of n (v / 256) (omega (arith, pow-suc 256 n)))

pub length-bytes_of : (n v : ℕ) → length (bytes_of n v) ≡ n
unfolding bytes_of
length-bytes_of zero v = refl
length-bytes_of (suc n) v = ap suc (length-bytes_of n (v / 256))

-- Two texts of the same beginning length that agree as a whole agree in both parts.
pub append-cancel :
    (xs ys xs' ys' : List ℕ)
    → length xs ≡ length xs'
    → xs ++ ys ≡ xs' ++ ys'
    → (xs ≡ xs') × (ys ≡ ys')
append-cancel [] ys [] ys' l e = (refl, e)
append-cancel [] ys (x ∷ xs') ys' l e = absurd (omega arith)
append-cancel (x ∷ xs) ys [] ys' l e = absurd (omega arith)
append-cancel (x ∷ xs) ys (x' ∷ xs') ys' l e =
    let (front, back) = append-cancel xs ys xs' ys' (omega arith) (tail-cancel e) in
    (ap₂ ◌∷◌ (head-cancel e) front, back)

pub take-append : (n : ℕ) (xs ys : List ℕ) → length xs ≡ n → take n (xs ++ ys) ≡ xs
take-append zero [] ys e = refl
take-append zero (x ∷ xs) ys e = absurd (omega arith)
take-append (suc n) [] ys e = absurd (omega arith)
take-append (suc n) (x ∷ xs) ys e = ap (◌∷◌ x) (take-append n xs ys (omega arith))

pub drop-append : (n : ℕ) (xs ys : List ℕ) → length xs ≡ n → drop n (xs ++ ys) ≡ ys
drop-append zero [] ys e = refl
drop-append zero (x ∷ xs) ys e = absurd (omega arith)
drop-append (suc n) [] ys e = absurd (omega arith)
drop-append (suc n) (x ∷ xs) ys e = drop-append n xs ys (omega arith)

pub take_all : (xs : List ℕ) → take (length xs) xs ≡ xs
take_all [] = refl
take_all (x ∷ xs) = ap (◌∷◌ x) (take_all xs)

pub length-record_header : (ts_ns len : ℕ) → length (record_header ts_ns len) ≡ 12
unfolding record_header
length-record_header ts_ns len = omega (
  arith,
  length-append (bytes_of 8 ts_ns) (bytes_of 4 len),
  length-bytes_of 8 ts_ns,
  length-bytes_of 4 len,
)

pub header_time :
    (ts_ns len : ℕ) → IsWord ts_ns → of_bytes (take 8 (record_header ts_ns len)) ≡ ts_ns
unfolding record_header
header_time ts_ns len w =
    ap of_bytes (take-append 8 (bytes_of 8 ts_ns) (bytes_of 4 len) (length-bytes_of 8 ts_ns))
    ∙ of_bytes-bytes_of 8 ts_ns (omega arith)

pub header_length :
    (ts_ns len : ℕ) → len < 2 ^ 32 → of_bytes (drop 8 (record_header ts_ns len)) ≡ len
unfolding record_header
header_length ts_ns len h =
    ap of_bytes (drop-append 8 (bytes_of 8 ts_ns) (bytes_of 4 len) (length-bytes_of 8 ts_ns))
    ∙ of_bytes-bytes_of 4 len (omega arith)
