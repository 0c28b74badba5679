-- ===== src/Metrics/Lines.antt =====
-- The lines of the text that WriteText of internal/observability/metrics.go writes.
use ftp2sftp.Base.{
  ℕ, List, [], ◌∷◌, ◌++◌, true, false, ◌≡◌, refl, sym, ap, ◌∙◌, Bytes, codes, ◌==◌, if◌then◌else◌,
  contains_byte, has_prefix, map, All, append_assoc, append-nil, arith, Bool-cases, inl, inr,
}
use ftp2sftp.Metrics.Text.{Metric, write_metric, write_all}

-- The lines of a text; `line` is what has been read of the first. One without its end is left out.
lines_from : Bytes → Bytes → List Bytes
lines_from line [] = []
lines_from line (c ∷ s) = elim (c == 10) [
  | true ↦ line ∷ lines_from [] s
  | false ↦ lines_from (line ++ c ∷ []) s
]

-- What stands before and after the first blank.
cut : Bytes → Bytes × Bytes
cut [] = ([], [])
cut (c ∷ s) = let (a, b) = cut s in if c == 32 then ([], s) else (c ∷ a, b)

-- Of a line that is no comment, the name and the value.
samples_of : List Bytes → List (Bytes × Bytes)
unfolding cut
samples_of [] = []
samples_of (l ∷ ls) =
    let rest = samples_of ls in if has_prefix l (codes "#") then rest else cut l ∷ rest

unfoldable pub samples : Bytes → List (Bytes × Bytes)
unfolding lines_from samples_of
samples s = samples_of (lines_from [] s)

abbrev pub named_value : Metric → Bytes × Bytes
named_value l = (l.name, l.value)

lines_from-break :
    (line l s : Bytes)
    → contains_byte 10 l ≡ false
    → lines_from line (l ++ 10 ∷ s) ≡ (line ++ l) ∷ lines_from [] s
unfolding lines_from
lines_from-break line [] s h = ap (λ t. t ∷ lines_from [] s) (sym (append-nil line))
lines_from-break line (c ∷ l) s h = elim (Bool-cases (c == 10)) [
  | inl e ↦ absurd (broken c l e h)
  | inr e ↦
      rw (e, lines_from)
        (lines_from-break (line ++ c ∷ []) l s (unbroken c l e h)
          ∙ ap (λ t. t ∷ lines_from [] s) (append_assoc line (c ∷ []) l))
]
  where
    broken : (c : ℕ) (l : Bytes) → (c == 10) ≡ true → contains_byte 10 (c ∷ l) ≡ false → ⊥
    broken c l e h = ground arith

    unbroken :
        (c : ℕ) (l : Bytes)
        → (c == 10) ≡ false
        → contains_byte 10 (c ∷ l) ≡ false
        → contains_byte 10 l ≡ false
    unbroken c l e h = ground arith

cut-blank : (a b : Bytes) → contains_byte 32 a ≡ false → cut (a ++ 32 ∷ b) ≡ (a, b)
unfolding cut
cut-blank [] b h = refl
cut-blank (c ∷ a) b h = ground (arith, cut-blank a b)

no_comment :
    (a b : Bytes) → contains_byte 35 a ≡ false → has_prefix (a ++ 32 ∷ b) (codes "#") ≡ false
no_comment [] b h = refl
no_comment (c ∷ a) b h = ground arith

contains_byte_both :
    (c : ℕ) (a b : Bytes)
    → contains_byte c a ≡ false
    → contains_byte c b ≡ false
    → contains_byte c (a ++ b) ≡ false
contains_byte_both c [] b h k = k
contains_byte_both c (x ∷ a) b h k = ground (arith, contains_byte_both c a b)

-- No line breaks, and a name without a blank or the sign of a comment.
pub record IsClean (l : Metric) : Type 0 where
  pub name_line : contains_byte 10 l.name ≡ false
  pub name_word : contains_byte 32 l.name ≡ false
  pub name_plain : contains_byte 35 l.name ≡ false
  pub help_line : contains_byte 10 l.help ≡ false
  pub kind_line : contains_byte 10 l.kind ≡ false
  pub value_line : contains_byte 10 l.value ≡ false

-- Three lines of a text.
three_lines :
    (a b c rest : Bytes)
    → contains_byte 10 a ≡ false
    → contains_byte 10 b ≡ false
    → contains_byte 10 c ≡ false
    → lines_from [] ((a ++ 10 ∷ (b ++ 10 ∷ (c ++ 10 ∷ []))) ++ rest)
      ≡ a ∷ b ∷ c ∷ lines_from [] rest
three_lines a b c rest ha hb hc =
    ap (lines_from []) (append_assoc a (10 ∷ (b ++ 10 ∷ (c ++ 10 ∷ []))) rest)
    ∙ lines_from-break [] a ((b ++ 10 ∷ (c ++ 10 ∷ [])) ++ rest) ha
    ∙ ap (λ t. a ∷ t)
        (ap (lines_from []) (append_assoc b (10 ∷ (c ++ 10 ∷ [])) rest)
          ∙ lines_from-break [] b ((c ++ 10 ∷ []) ++ rest) hb
          ∙ ap (λ t. b ∷ t)
              (ap (lines_from []) (append_assoc c (10 ∷ []) rest) ∙ lines_from-break [] c rest hc))

comments_skipped :
    (h k name value : Bytes) (ls : List Bytes)
    → contains_byte 35 name ≡ false
    → contains_byte 32 name ≡ false
    → samples_of ((35 ∷ h) ∷ (35 ∷ k) ∷ (name ++ 32 ∷ value) ∷ ls) ≡ (name, value) ∷ samples_of ls
unfolding samples_of
comments_skipped h k name value ls p w =
    rw (no_comment name value p) (ap (λ t. t ∷ samples_of ls) (cut-blank name value w))

write_metric-samples :
    (l : Metric) (rest : Bytes)
    → IsClean l
    → samples (write_metric l ++ rest) ≡ named_value l ∷ samples rest
unfolding write_metric samples
write_metric-samples l rest c =
    let help = codes "# HELP " ++ l.name ++ 32 ∷ l.help in
    let kind = codes "# TYPE " ++ l.name ++ 32 ∷ l.kind in
    let value = l.name ++ 32 ∷ l.value in
    ap samples_of (
      three_lines help kind value rest
        (contains_byte_both 10 (codes "# HELP " ++ l.name) (32 ∷ l.help)
          (contains_byte_both 10 (codes "# HELP ") l.name refl c.name_line) c.help_line)
        (contains_byte_both 10 (codes "# TYPE " ++ l.name) (32 ∷ l.kind)
          (contains_byte_both 10 (codes "# TYPE ") l.name refl c.name_line) c.kind_line)
        (contains_byte_both 10 l.name (32 ∷ l.value) c.name_line c.value_line))
    ∙ comments_skipped (codes " HELP " ++ l.name ++ 32 ∷ l.help)
        (codes " TYPE " ++ l.name ++ 32 ∷ l.kind) l.name l.value (lines_from [] rest) c.name_plain
        c.name_word

pub write_all-samples :
    (ls : List Metric) → All IsClean ls → samples (write_all ls) ≡ map named_value ls
write_all-samples [] h = unfold samples samples_of lines_from in refl
write_all-samples (l ∷ ls) h =
    write_metric-samples l (write_all ls) h.0 ∙ ap (◌∷◌ (named_value l)) (write_all-samples ls h.1)
