-- ===== src/Identifiers.antt =====
-- internal/observability/id.go: the identifiers of sessions and transfers.
pub mod Unique
use ftp2sftp.Base.{
  ℕ, zero, suc, ◌+◌, ◌*◌, ◌/◌, ◌%◌, ◌<◌, List, [], ◌∷◌, ◌++◌, Bool, ◌≡◌, ◌≢◌, refl, Option, none,
  some, Bytes, All, arith, ltb, if◌then◌else◌, All-append, Bool-cases, inl, inr,
}
use ftp2sftp.GoPath.{slash}
use ftp2sftp.GoPath.Elements.{Plain}

-- The lower-case hexadecimal digit of a number below 16.
abbrev pub digit : ℕ → ℕ
digit d = if ltb d 10 then 48 + d else 87 + d

-- `hex.EncodeToString`.
unfoldable pub encode_to_string : Bytes → Bytes
encode_to_string [] = []
encode_to_string (b ∷ s) = digit (b / 16) ∷ digit (b % 16) ∷ encode_to_string s

-- The digits of `%x`, before `acc`; at most as many as the first argument says.
unfoldable pub hex_digits : ℕ → ℕ → Bytes → Bytes
hex_digits zero n acc = acc
hex_digits (suc k) n acc =
    let more = hex_digits k (n / 16) (digit (n % 16) ∷ acc) in
    if ltb n 16 then digit n ∷ acc else more

-- `%x` of a number below 2^64, which has 16 digits at most.
abbrev pub hex : ℕ → Bytes
hex n = hex_digits 16 n []

-- `fmt.Sprintf("f%x%x", …)`.
unfoldable pub fallback_id : ℕ → ℕ → Bytes
fallback_id now count = b'f' ∷ hex now ++ hex count

-- `NewCorrelationID`: `random` is what `rand.Read` gives, eight bytes or an error; `now` is the time in
-- nanoseconds, after 1970, and `count` the fallback counter once it has been raised.
unfoldable pub new_correlation_id : Option Bytes → ℕ → ℕ → Bytes
new_correlation_id (some random) now count = encode_to_string random
new_correlation_id none now count = fallback_id now count

digit-ne-slash : (d : ℕ) → digit d ≢ slash
digit-ne-slash d = ground arith

encode_to_string-Plain : (s : Bytes) → Plain (encode_to_string s)
unfolding encode_to_string
encode_to_string-Plain [] = tt
encode_to_string-Plain (b ∷ s) =
    (digit-ne-slash (b / 16), (digit-ne-slash (b % 16), encode_to_string-Plain s))

hex_digits-Plain : (k n : ℕ) (acc : Bytes) → Plain acc → Plain (hex_digits k n acc)
unfolding hex_digits
hex_digits-Plain zero n acc h = h
hex_digits-Plain (suc k) n acc h = elim (Bool-cases (ltb n 16)) [
  | inl e ↦ rw e (digit-ne-slash n, h)
  | inr e ↦ rw e (hex_digits-Plain k (n / 16) (digit (n % 16) ∷ acc) (digit-ne-slash (n % 16), h))
]

-- An identifier has no slash, so that it can stand in the name of a file.
pub new_correlation_id-Plain :
    (random : Option Bytes) (now count : ℕ) → Plain (new_correlation_id random now count)
unfolding new_correlation_id fallback_id
new_correlation_id-Plain (some s) now count = encode_to_string-Plain s
new_correlation_id-Plain none now count = (
  ground arith,
  All-append (λ c. c ≢ slash) (hex now) (hex count) (hex_digits-Plain 16 now [] tt)
      (hex_digits-Plain 16 count [] tt),
)
