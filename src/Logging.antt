-- ===== src/Logging.antt =====
-- internal/observability/protocol_logger.go: the log of the FTP library, with what a client sends after
-- PASS left out. A string is its bytes, which need not be UTF-8.
pub mod Trimming
pub mod Redaction
use ftp2sftp.Base.{
  ℕ, zero, suc, ◌+◌, List, [], ◌∷◌, ◌++◌, Bool, true, false, ◌&&◌, ◌||◌, Bytes, String, codes, ltb,
  leb, ◌==◌, if◌then◌else◌, length, take, map, eq_bytes,
}
use mathlib.Core.List.{reverse}

-- The white space of `unicode.IsSpace` by the bytes of its UTF-8 forms, of one to three bytes.
abbrev pub is_space1 : ℕ → Bool
is_space1 a = (leb 9 a && leb a 13) || a == 32

abbrev pub is_space2 : ℕ → ℕ → Bool
is_space2 a b = a == 194 && (b == 133 || b == 160)

abbrev pub is_space3 : ℕ → ℕ → ℕ → Bool
is_space3 a b c =
    (a == 225 && (b == 154 && c == 128))
    || ((a == 226
          && ((b == 128 && ((leb 128 c && leb c 138) || (c == 168 || (c == 169 || c == 175))))
              || (b == 129 && c == 159)))
        || (a == 227 && (b == 128 && c == 128)))

-- How many bytes the white space at the head takes: 0 if there is none.
abbrev pub width_of : Bool → Bool → Bool → ℕ
width_of one two three = if one then 1 else if two then 2 else if three then 3 else 0

unfoldable pub first_space : Bytes → ℕ
first_space [] = 0
first_space (a ∷ []) = width_of (is_space1 a) false false
first_space (a ∷ b ∷ []) = width_of (is_space1 a) (is_space2 a b) false
first_space (a ∷ b ∷ c ∷ s) = width_of (is_space1 a) (is_space2 a b) (is_space3 a b c)

-- The same at the end of a string that is given backwards.
unfoldable pub last_space : Bytes → ℕ
last_space [] = 0
last_space (a ∷ []) = width_of (is_space1 a) false false
last_space (a ∷ b ∷ []) = width_of (is_space1 a) (is_space2 b a) false
last_space (a ∷ b ∷ c ∷ s) = width_of (is_space1 a) (is_space2 b a) (is_space3 c b a)

abbrev resume : ℕ → Bytes → (ℕ → Bytes) → Bytes
resume zero whole go = whole
resume (suc k) whole go = go k

-- White space goes from the head; the first `n` bytes are part of one that has been seen.
unfoldable pub strip : (Bytes → ℕ) → ℕ → Bytes → Bytes
strip width n [] = []
strip width (suc n) (a ∷ s) = strip width n s
strip width zero (a ∷ s) = resume (width (a ∷ s)) (a ∷ s) (λ n. strip width n s)

-- `strings.TrimSpace`.
unfoldable pub trim_space : Bytes → Bytes
trim_space s = reverse (strip last_space 0 (reverse (strip first_space 0 s)))

-- A letter in lower case.
abbrev pub lower : ℕ → ℕ
lower c = if leb 65 c && leb c 90 then c + 32 else c

-- `strings.EqualFold(s, t)` for an ASCII text `t` without a `k`: besides the ASCII letters, the long s
-- (U+017F, of bytes 197 and 191) folds to `s`.
unfoldable pub equal_fold : Bytes → Bytes → Bool
equal_fold [] [] = true
equal_fold [] (d ∷ t) = false
equal_fold (c ∷ s) [] = false
equal_fold (c ∷ []) (d ∷ t) = lower c == lower d && equal_fold [] t
equal_fold (c ∷ b ∷ s) (d ∷ t) =
    if c == 197 && b == 191
    then lower d == b's' && equal_fold s t
    else lower c == lower d && equal_fold (b ∷ s) t

abbrev pub pass : Bytes
pass = codes "PASS"

abbrev pub redacted_pass : Bytes
redacted_pass = codes "PASS ***REDACTED***"

abbrev redact_trimmed : Bytes → Bytes → Bytes
redact_trimmed line trimmed =
    if equal_fold trimmed pass
    then pass
    else if ltb 5 (length trimmed) && equal_fold (take 5 trimmed) (codes "PASS ")
    then redacted_pass
    else line

-- `redactIfSensitive`; `PASS` is the one sensitive command.
unfoldable pub redact_if_sensitive : Bytes → Bytes
redact_if_sensitive line = redact_trimmed line (trim_space line)

-- `slog.Record`: an attribute is its key and its value's text, and `stamp` the time, level and counter.
pub record LogRecord : Type 0 where
  pub stamp : ℕ
  pub message : Bytes
  pub attrs : List (Bytes × Bytes)

abbrev pub redact_attr : Bytes × Bytes → Bytes × Bytes
redact_attr (key, value) =
    if eq_bytes key (codes "line") then (key, redact_if_sensitive value) else (key, value)

-- `redactLineAttr`.
unfoldable pub redact_line_attr : LogRecord → LogRecord
redact_line_attr r = record r { attrs = map redact_attr r.attrs }

-- `Handle`: the record that the wrapped handler gets.
unfoldable pub handle : LogRecord → LogRecord
handle r =
    if eq_bytes r.message (codes "Received line") || eq_bytes r.message (codes "Sending answer")
    then redact_line_attr r
    else r
