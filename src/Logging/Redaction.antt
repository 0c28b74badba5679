-- ===== src/Logging/Redaction.antt =====
-- The password in the FTP library's log (internal/observability/protocol_logger.go).
use ftp2sftp.Base.{
  ℕ, List, [], ◌∷◌, ◌++◌, ◌≡◌, refl, sym, ap, ◌∙◌, ◌⊎◌, inl, inr, Bytes, codes, map, arith,
}
use ftp2sftp.Logging.{
  lower, equal_fold, pass, redacted_pass, redact_if_sensitive, trim_space, LogRecord, redact_attr,
  redact_line_attr, handle, strip, first_space, last_space,
}
use ftp2sftp.Logging.Trimming.{Blank, Remains, trim_space-Remains}

-- The command in any mix of cases.
abbrev pub IsPass : Bytes → Type 0
IsPass word = map lower word ≡ codes "pass"

-- What a log may hold of such a line.
abbrev pub IsDiscreet : Bytes → Type 0
IsDiscreet v = (v ≡ pass) ⊎ (v ≡ redacted_pass)

redact-Remains :
    (line t : Bytes) (b c d e : ℕ)
    → IsPass (b ∷ c ∷ d ∷ e ∷ [])
    → trim_space line ≡ t
    → Remains t (b ∷ c ∷ d ∷ e ∷ [])
    → IsDiscreet (redact_if_sensitive line)
unfolding redact_if_sensitive equal_fold
redact-Remains line t b c d e p q (inl r) = rw (q, r) (ground arith)
redact-Remains line t b c d e p q (inr (x, s, r)) = rw (q, r) (ground arith)

-- `PASS` in any mix of cases, after white space, and its argument.
abbrev pub pass_line : Bytes → Bytes → Bytes → Bytes
pass_line start word arg = start ++ (word ++ (32 ∷ arg))

redact_word :
    (start arg : Bytes) (b c d e : ℕ)
    → Blank start
    → IsPass (b ∷ c ∷ d ∷ e ∷ [])
    → IsDiscreet (redact_if_sensitive (pass_line start (b ∷ c ∷ d ∷ e ∷ []) arg))
redact_word start arg b c d e h p =
    redact-Remains _ _ b c d e p refl
      (trim_space-Remains start (c ∷ d ∷ []) arg b e h (ground arith) (ground arith))

redact_if_sensitive-IsDiscreet :
    (start word arg : Bytes)
    → Blank start
    → IsPass word
    → IsDiscreet (redact_if_sensitive (pass_line start word arg))
redact_if_sensitive-IsDiscreet start [] arg h p = ground arith
redact_if_sensitive-IsDiscreet start (b ∷ []) arg h p = ground arith
redact_if_sensitive-IsDiscreet start (b ∷ c ∷ []) arg h p = ground arith
redact_if_sensitive-IsDiscreet start (b ∷ c ∷ d ∷ []) arg h p = ground arith
redact_if_sensitive-IsDiscreet start (b ∷ c ∷ d ∷ e ∷ []) arg h p =
    redact_word start arg b c d e h p
redact_if_sensitive-IsDiscreet start (b ∷ c ∷ d ∷ e ∷ f ∷ w) arg h p = ground arith

discreet_kept : (v : Bytes) → IsDiscreet v → redact_if_sensitive v ≡ v
unfolding redact_if_sensitive trim_space strip first_space last_space equal_fold
discreet_kept v (inl e) = rw e refl
discreet_kept v (inr e) = rw e refl

map-append :
    (xs ys : List (Bytes × Bytes))
    → map redact_attr (xs ++ ys) ≡ map redact_attr xs ++ map redact_attr ys
map-append [] ys = refl
map-append (x ∷ xs) ys = ap (◌∷◌ (redact_attr x)) (map-append xs ys)

-- The two messages under which the library logs a line.
abbrev pub IsTraced : Bytes → Type 0
IsTraced m = (m ≡ codes "Received line") ⊎ (m ≡ codes "Sending answer")

traced_lem : (r : LogRecord) → IsTraced r.message → handle r ≡ redact_line_attr r
unfolding handle
traced_lem r (inl e) = rw e refl
traced_lem r (inr e) = rw e refl

-- A record with a line attribute.
abbrev pub traced : ℕ → Bytes → List (Bytes × Bytes) → Bytes → List (Bytes × Bytes) → LogRecord
traced stamp message before line after = record {
  stamp = stamp;
  message = message;
  attrs = before ++ ((codes "line", line) ∷ after);
}

same_line :
    (stamp : ℕ) (message : Bytes) (before : List (Bytes × Bytes)) (x y : Bytes)
    (after : List (Bytes × Bytes))
    → redact_if_sensitive x ≡ redact_if_sensitive y
    → redact_line_attr (traced stamp message before x after)
      ≡ redact_line_attr (traced stamp message before y after)
unfolding redact_line_attr
same_line stamp message before x y after e =
    ap (λ l. record { stamp = stamp; message = message; attrs = l })
      (map-append before _
        ∙ ap (λ v. map redact_attr before ++ ((codes "line", v) ∷ map redact_attr after)) e
        ∙ sym (map-append before _))

-- Whatever follows `PASS` and a blank on a line that the FTP library logs, `PASS` in any mix of cases and
-- after any ASCII white space, the wrapped handler gets the record that it would get of a line that is `PASS` alone or
-- `PASS ***REDACTED***`, with nothing else changed: no part of the password reaches it.
pub handle-IsDiscreet :
    (stamp : ℕ) (message : Bytes) (before : List (Bytes × Bytes)) (start word arg : Bytes)
    (after : List (Bytes × Bytes))
    → IsTraced message
    → Blank start
    → IsPass word
    → (v : Bytes) × IsDiscreet v
      × (handle (traced stamp message before (pass_line start word arg) after)
          ≡ handle (traced stamp message before v after))
handle-IsDiscreet stamp message before start word arg after m h p =
    let d = redact_if_sensitive-IsDiscreet start word arg h p in
    let line = pass_line start word arg in
    let v = redact_if_sensitive line in
    (
      v,
      d,
      traced_lem (traced stamp message before line after) m
          ∙ same_line stamp message before line v after (sym (discreet_kept v d))
          ∙ sym (traced_lem (traced stamp message before v after) m),
    )
