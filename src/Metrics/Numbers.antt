-- ===== src/Metrics/Numbers.antt =====
-- The numbers in the text that WriteText of internal/observability/metrics.go writes.
use ftp2sftp.Base.{
  ℕ, zero, suc, ◌+◌, ◌-◌, ◌*◌, ◌/◌, ◌%◌, ◌^◌, ◌<◌, [], ◌∷◌, true, false, ◌≡◌, refl, ap, ◌∙◌, Bytes,
  codes, ltb, if◌then◌else◌, contains_byte, has_prefix, drop_prefix, arith, Bool-cases, inl, inr,
}
use ftp2sftp.Metrics.{word}
use ftp2sftp.Metrics.Text.{digits, unsigned, signed}

unfoldable pub read_number : ℕ → Bytes → ℕ
read_number a [] = a
read_number a (c ∷ s) = read_number (a * 10 + (c - 48)) s

-- The 64-bit pattern of a number with a sign.
unfoldable pub read_pattern : Bytes → ℕ
unfolding read_number
read_pattern s =
    if has_prefix s (codes "-")
    then word - read_number 0 (drop_prefix s (codes "-"))
    else read_number 0 s

pub digits_line :
    (k n : ℕ) (acc : Bytes)
    → contains_byte 10 acc ≡ false
    → contains_byte 10 (digits k n acc) ≡ false
unfolding digits
digits_line zero n acc h = h
digits_line (suc k) n acc h = elim (Bool-cases (ltb n 10)) [
  | inl e ↦ rw e (ground (arith, h))
  | inr e ↦ rw e (digits_line k (n / 10) ((48 + n % 10) ∷ acc) (ground (arith, h)))
]

digits_unsigned :
    (k n : ℕ) (acc : Bytes)
    → has_prefix acc (codes "-") ≡ false
    → has_prefix (digits k n acc) (codes "-") ≡ false
unfolding digits
digits_unsigned zero n acc h = h
digits_unsigned (suc k) n acc h = elim (Bool-cases (ltb n 10)) [
  | inl e ↦ rw e (ground arith)
  | inr e ↦ rw e (digits_unsigned k (n / 10) ((48 + n % 10) ∷ acc) (ground arith))
]

power_suc_ten : (k : ℕ) → 10 ^ suc k ≡ 10 * 10 ^ k
power_suc_ten k = omega arith

quotient_ten : (n p q : ℕ) → n < q → q ≡ 10 * p → n / 10 < p
quotient_ten n p q h e = omega arith

small_ten : (n : ℕ) → ltb n 10 ≡ true → n < 10
small_ten n h = ground arith

read_number-digits :
    (k n : ℕ) (acc : Bytes)
    → n < 10 ^ suc k
    → read_number 0 (digits (suc k) n acc) ≡ read_number n acc
unfolding digits read_number
read_number-digits zero n acc h = elim (Bool-cases (ltb n 10)) [
  | inl e ↦ rw e (ap (λ m. read_number m acc) (omega arith))
  | inr e ↦ absurd (too_large n e h)
]
  where
    too_large : (n : ℕ) → ltb n 10 ≡ false → n < 10 → ⊥
    too_large n e h = ground arith
read_number-digits (suc k) n acc h = elim (Bool-cases (ltb n 10)) [
  | inl e ↦ rw e (ap (λ m. read_number m acc) (omega arith))
  | inr e ↦ rw e (
      read_number-digits k (n / 10) ((48 + n % 10) ∷ acc)
        (quotient_ten n (10 ^ suc k) (10 ^ suc (suc k)) h (power_suc_ten (suc k)))
      ∙ ap (λ m. read_number m acc) (omega arith))
]

pub read_number-unsigned : (v : ℕ) → v < word → read_number 0 (unsigned v) ≡ v
unfolding read_number
read_number-unsigned v h = read_number-digits 19 v [] (omega (arith, h))

pub read_pattern-signed : (v : ℕ) → v < word → read_pattern (signed v) ≡ v
unfolding read_pattern
read_pattern-signed v h = elim (Bool-cases (ltb v (2 ^ 63))) [
  | inl e ↦ rw (e, digits_unsigned 20 v [] refl) (read_number-unsigned v h)
  | inr e ↦ rw e (ap (λ n. word - n) (read_number-unsigned (word - v) (below e)) ∙ omega (arith, h))
]
  where
    below : ltb v (2 ^ 63) ≡ false → word - v < word
    below e = ground arith
