-- ===== src/Identifiers/Unique.antt =====
-- The identifiers of internal/observability/id.go differ.
use ftp2sftp.Base.{
  ℕ, zero, suc, ◌+◌, ◌-◌, ◌*◌, ◌/◌, ◌%◌, ◌^◌, ◌<◌, ◌≤◌, [], ◌∷◌, ◌++◌, ◌≡◌, refl, sym, ap, ◌∙◌,
  none, Bytes, arith, ltb, if◌then◌else◌, Bool-cases, inl, inr, length, true, false,
}
use ftp2sftp.Identifiers.{digit, hex_digits, hex, fallback_id, new_correlation_id}

-- The number that a digit stands for.
abbrev undigit : ℕ → ℕ
undigit c = if ltb c 58 then c - 48 else c - 87

undigit-digit : (d : ℕ) → d < 16 → undigit (digit d) ≡ d
undigit-digit d h = ground arith

last_digit : (d : ℕ) → d < 16 → 0 * 16 + undigit (digit d) ≡ d
last_digit d h = ground arith

abbrev value : ℕ → Bytes → ℕ
value a [] = a
value a (c ∷ s) = value (a * 16 + undigit c) s

power_suc : (k : ℕ) → 16 ^ suc k ≡ 16 * 16 ^ k
power_suc k = omega arith

small-is : (n : ℕ) → ltb n 16 ≡ true → n < 16
small-is n h = ground arith

large-is : (n : ℕ) → ltb n 16 ≡ false → 16 ≤ n
large-is n h = ground arith

quotient-below : (n p q : ℕ) → n < q → q ≡ 16 * p → n / 16 < p
quotient-below n p q h e = omega arith

value-hex_digits :
    (k n : ℕ) (acc : Bytes) → n < 16 ^ suc k → value 0 (hex_digits (suc k) n acc) ≡ value n acc
unfolding hex_digits
value-hex_digits zero n acc h = elim (Bool-cases (ltb n 16)) [
  | inl e ↦ rw e (ap (λ m. value m acc) (last_digit n (small-is n e)))
  | inr e ↦ absurd (too_large (large-is n e))
]
  where
    too_large : 16 ≤ n → ⊥
    too_large g = omega arith
value-hex_digits (suc k) n acc h = elim (Bool-cases (ltb n 16)) [
  | inl e ↦ rw e (ap (λ m. value m acc) (last_digit n (small-is n e)))
  | inr e ↦ rw e (
      value-hex_digits k (n / 16) (digit (n % 16) ∷ acc)
        (quotient-below n (16 ^ suc k) (16 ^ suc (suc k)) h (power_suc (suc k)))
      ∙ ap (λ m. value m acc)
          (ap (λ d. n / 16 * 16 + d) (undigit-digit (n % 16) (omega arith)) ∙ omega arith))
]

length-hex_digits :
    (j k n : ℕ) (acc : Bytes)
    → 16 ^ j ≤ n
    → n < 16 ^ suc j
    → j < k
    → length (hex_digits k n acc) ≡ suc j + length acc
unfolding hex_digits
length-hex_digits j zero n acc l h i = ground arith
length-hex_digits zero (suc k) n acc l h i = elim (Bool-cases (ltb n 16)) [
  | inl e ↦ rw e (omega arith)
  | inr e ↦ absurd (too_large (large-is n e))
]
  where
    too_large : 16 ≤ n → ⊥
    too_large g = omega arith
length-hex_digits (suc j) (suc k) n acc l h i = elim (Bool-cases (ltb n 16)) [
  | inl e ↦ absurd (too_small (small-is n e) (one-le j))
  | inr e ↦ rw e (
      length-hex_digits j k (n / 16) (digit (n % 16) ∷ acc) (omega (arith, l, power_suc j))
        (quotient-below n (16 ^ suc j) (16 ^ suc (suc j)) h (power_suc (suc j))) (omega (arith, i))
      ∙ omega arith)
]
  where
    one-le : (j : ℕ) → 1 ≤ 16 ^ j
    one-le zero = omega arith
    one-le (suc j) = omega (arith, power_suc j, one-le j)

    too_small : n < 16 → 1 ≤ 16 ^ j → ⊥
    too_small g o = omega (arith, l, power_suc j)

-- Texts of the same length in front are equal, and so is what follows them.
append_cancel : (a b c d : Bytes) → length a ≡ length b → a ++ c ≡ b ++ d → (a ≡ b) × (c ≡ d)
append_cancel [] [] c d e h = (refl, h)
append_cancel [] (y ∷ b) c d e h = ground arith
append_cancel (x ∷ a) [] c d e h = ground arith
append_cancel (x ∷ a) (y ∷ b) c d e h = ground (arith, append_cancel a b c d)

length-hex : (t : ℕ) → 16 ^ 15 ≤ t → t < 2 ^ 64 → length (hex t) ≡ 16
length-hex t l h = length-hex_digits 15 16 t [] l h (omega arith)

hex_injective : (a b : ℕ) → a < 2 ^ 64 → b < 2 ^ 64 → hex a ≡ hex b → a ≡ b
hex_injective a b ha hb e =
    sym (value-hex_digits 15 a [] ha) ∙ ap (value 0) e ∙ value-hex_digits 15 b [] hb

-- Without a source of entropy two identifiers are equal only if they were made at the same time with
-- the same counter. The times are from July 2006 on, so that they have 16 digits, and fit 64 bits, as
-- the counters do.
pub fallback_id_injective :
    (t u m n : ℕ)
    → 16 ^ 15 ≤ t
    → t < 2 ^ 64
    → 16 ^ 15 ≤ u
    → u < 2 ^ 64
    → m < 2 ^ 64
    → n < 2 ^ 64
    → new_correlation_id none t m ≡ new_correlation_id none u n
    → (t ≡ u) × (m ≡ n)
unfolding new_correlation_id fallback_id
fallback_id_injective t u m n lt ht lu hu hm hn e =
    let (p, q) =
      append_cancel (hex t) (hex u) (hex m) (hex n) (length-hex t lt ht ∙ sym (length-hex u lu hu))
        (ap tail e) in
    (hex_injective t u ht hu p, hex_injective m n hm hn q)
  where
    tail : Bytes → Bytes
    tail [] = []
    tail (c ∷ s) = s
