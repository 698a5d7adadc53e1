-- ===== src/Prelude/Text.antt =====
-- Texts as lists of character codes: comparison, `std::to_string` of an unsigned number, and
-- `std::strncpy`.
use smart_quant.Prelude.Tests.{◌==◌, ==_iff, ==_refl, ltb, if◌then◌else◌, Bool-cases}
use smart_quant.Prelude.Lists.{length, All, length-append}
use smart_quant.Prelude.Eq.{Eq}
use Prim.Native.Nat.{ℕ, zero, suc, ◌+◌, ◌-◌, ◌*◌, ◌/◌, ◌%◌, ◌^◌, ◌≤◌, ◌<◌}
use mathlib.Core.Path.{◌≡◌, refl, subst, ap, ap₂, ◌∙◌, sym}
use mathlib.Core.Logic.{◌↔◌, ◌≢◌, inl, inr}
use mathlib.Core.Bool.{Bool, true, false, ◌&&◌}
use mathlib.Core.List.{List, [], ◌∷◌, ◌++◌}
use native.Mathlib.Omega.{arith}
use native.Mathlib.Nat.{pow-suc}

abbrev pub Text : Type 0
Text = List ℕ

abbrev pub text_beq : Text → Text → Bool
text_beq [] [] = true
text_beq [] (_ ∷ _) = false
text_beq (_ ∷ _) [] = false
text_beq (x ∷ xs) (y ∷ ys) = x == y && text_beq xs ys

pub text_beq→eq : (a b : Text) → text_beq a b ≡ true → a ≡ b
text_beq→eq [] [] h = refl
text_beq→eq [] (y ∷ ys) h = absurd (cc)
text_beq→eq (x ∷ xs) [] h = absurd (cc)
text_beq→eq (x ∷ xs) (y ∷ ys) h = elim (Bool-cases (x == y)) [
  | inl t ↦ ap₂ ◌∷◌ ((==_iff x y).0 t) (text_beq→eq xs ys (rw t at h))
  | inr f ↦ let no : false ≡ true = rw f at h in absurd (cc)
]

text_beq_self : (a : Text) → text_beq a a ≡ true
text_beq_self [] = refl
text_beq_self (x ∷ xs) = rw (==_refl x) (text_beq_self xs)

pub text_beq_iff : (a b : Text) → (text_beq a b ≡ true) ↔ (a ≡ b)
text_beq_iff a b = (text_beq→eq a b, λ e. subst (λ c. text_beq a c ≡ true) e (text_beq_self a))

instance abbrev pub text_eq : Eq Text
text_eq = record { beq = text_beq; beq_iff = text_beq_iff }

-- The decimal digits of a number, if the fuel is enough for all of them.
unfoldable pub decimal : ℕ → ℕ → Text
decimal zero n = []
decimal (suc f) n =
    let front = decimal f (n / 10) in
    if ltb n 10 then (48 + n) ∷ [] else front ++ (48 + n % 10) ∷ []

-- The digits of a `uint64_t` are at most 20.
unfoldable pub to_string : ℕ → Text
unfolding decimal
to_string n = decimal 20 n

-- At most `n` characters, up to the zero that ends the source.
unfoldable pub strncpy : ℕ → Text → Text
strncpy zero s = []
strncpy (suc n) [] = []
strncpy (suc n) (c ∷ s) = let rest = strncpy n s in if c == 0 then [] else c ∷ rest

-- Reads digits on from a value.
abbrev pub read_from : ℕ → Text → ℕ
read_from v [] = v
read_from v (c ∷ s) = read_from (v * 10 + (c - 48)) s

read_from-append :
    (v : ℕ) (s : Text) (c : ℕ) → read_from v (s ++ c ∷ []) ≡ read_from v s * 10 + (c - 48)
read_from-append v [] c = refl
read_from-append v (x ∷ s) c = read_from-append (v * 10 + (x - 48)) s c

-- Reading the digits gives the number back.
pub read_from-decimal : (f n : ℕ) → n < 10 ^ f → read_from 0 (decimal f n) ≡ n
unfolding decimal
read_from-decimal zero n h = omega arith
read_from-decimal (suc f) n h = elim (Bool-cases (ltb n 10)) [
  | inl t ↦ rw t (omega arith)
  | inr f' ↦ rw f' (
      read_from-append 0 (decimal f (n / 10)) (48 + n % 10)
      ∙ ap (λ v. v * 10 + (48 + n % 10 - 48))
          (read_from-decimal f (n / 10) (omega (arith, pow-suc 10 f)))
      ∙ omega arith)
]

pub length-decimal : (f n : ℕ) → length (decimal f n) ≤ f
unfolding decimal
length-decimal zero n = omega arith
length-decimal (suc f) n = elim (Bool-cases (ltb n 10)) [
  | inl t ↦ rw t (omega arith)
  | inr f' ↦ rw f' (
      omega
        (arith, length-append (decimal f (n / 10)) ((48 + n % 10) ∷ []), length-decimal f (n / 10)))
]

abbrev pub NonZero : ℕ → Type 0
NonZero c = c ≢ 0

All-snoc : (s : Text) (c : ℕ) → All NonZero s → NonZero c → All NonZero (s ++ c ∷ [])
All-snoc [] c h p = (p, tt)
All-snoc (x ∷ s) c (q, h) p = (q, All-snoc s c h p)

pub decimal-NonZero : (f n : ℕ) → All NonZero (decimal f n)
unfolding decimal
decimal-NonZero zero n = tt
decimal-NonZero (suc f) n = elim (Bool-cases (ltb n 10)) [
  | inl t ↦ rw t ((λ e. omega arith), tt)
  | inr f' ↦
      rw f' (
        All-snoc (decimal f (n / 10)) (48 + n % 10) (decimal-NonZero f (n / 10)) (λ e. omega arith))
]

-- A text that fits is copied whole.
pub strncpy_whole : (n : ℕ) (s : Text) → All NonZero s → length s ≤ n → strncpy n s ≡ s
unfolding strncpy
strncpy_whole zero [] h l = refl
strncpy_whole zero (c ∷ s) h l = absurd (omega arith)
strncpy_whole (suc n) [] h l = refl
strncpy_whole (suc n) (c ∷ s) (p, h) l = elim (Bool-cases (c == 0)) [
  | inl t ↦ absurd (p ((==_iff c 0).0 t))
  | inr f ↦ rw f (ap (◌∷◌ c) (strncpy_whole n s h (omega arith)))
]

-- Different numbers have different digits.
pub to_string-injective : (a b : ℕ) → a < 2 ^ 64 → b < 2 ^ 64 → to_string a ≡ to_string b → a ≡ b
unfolding to_string
to_string-injective a b ha hb e =
    sym (read_from-decimal 20 a (omega arith))
    ∙ ap (read_from 0) e
    ∙ read_from-decimal 20 b (omega arith)
