-- ===== src/Transfer/TempName.antt =====
-- The temporary name of an upload: TempPath of internal/transfer/transfer.go.
use ftp2sftp.Base.{
  List, [], ◌∷◌, ◌++◌, true, false, ◌≡◌, ◌≢◌, refl, sym, ap, ◌∙◌, append_assoc, arith, Bytes,
  All-append, length, length-append, contains, contains-append, contains_byte, contains_byte-append,
}
use ftp2sftp.GoPath.{slash, dot, dotdot, glue, rooted}
use ftp2sftp.GoPath.Elements.{Plain, IsName, Names}
use ftp2sftp.GoPath.Clean.{walk, walk-glue, join-rooted}
use ftp2sftp.GoPath.Last.{base-rooted, dir-rooted}
use ftp2sftp.Transfer.{temp_path}

-- The last name of the temporary file of `b`.
abbrev pub temp_name : Bytes → Bytes → Bytes → Bytes
temp_name b session_id suffix = b ++ suffix ++ b'-' ∷ session_id

dash-ne : (t p : Bytes) → contains_byte b'-' t ≡ true → contains_byte b'-' p ≡ false → t ≢ p
dash-ne t p h k e = cc

temp_name-dash : (b sid suffix : Bytes) → contains_byte b'-' (temp_name b sid suffix) ≡ true
temp_name-dash b sid suffix = contains_byte-append b'-' (b ++ suffix) sid

pub temp_name-IsName :
    (b sid suffix : Bytes) → IsName b → Plain sid → Plain suffix → IsName (temp_name b sid suffix)
temp_name-IsName b sid suffix h hs hx = record {
  nonempty = dash-ne _ [] (temp_name-dash b sid suffix) refl;
  not_dot = dash-ne _ dot (temp_name-dash b sid suffix) refl;
  not_dotdot = dash-ne _ dotdot (temp_name-dash b sid suffix) refl;
  plain =
      All-append (λ c. c ≢ slash) (b ++ suffix) (b'-' ∷ sid)
        (All-append (λ c. c ≢ slash) b suffix h.plain hx) (omega arith, hs);
}

glue-one : (t : Bytes) → glue (t ∷ []) ≡ t
unfolding glue
glue-one t = refl

pub temp_path-rooted :
    (ds : List Bytes) (b sid suffix : Bytes)
    → Names ds
    → IsName b
    → Plain sid
    → Plain suffix
    → temp_path (rooted (ds ++ b ∷ [])) sid suffix ≡ rooted (ds ++ temp_name b sid suffix ∷ [])
unfolding temp_path
temp_path-rooted ds b sid suffix hd h hs hx =
    rw (dir-rooted ds b hd h, base-rooted ds b h, join-rooted ds (temp_name b sid suffix) hd)
      (ap rooted (
        ap (walk ds) (sym (glue-one (temp_name b sid suffix)))
        ∙ walk-glue ds (temp_name b sid suffix ∷ []) (temp_name-IsName b sid suffix h hs hx, tt)))

marked : (b sid suffix : Bytes) → temp_name b sid suffix ≡ b ++ (suffix ++ b'-' ∷ []) ++ sid
marked b sid suffix =
    append_assoc b suffix (b'-' ∷ sid)
    ∙ ap (◌++◌ b) (sym (append_assoc suffix (b'-' ∷ []) sid))
    ∙ sym (append_assoc b (suffix ++ b'-' ∷ []) sid)

-- Its name holds the marker by which `ReadDir` hides files, and is not the final name.
pub temp_name-marked :
    (b sid suffix : Bytes)
    → (contains (temp_name b sid suffix) (suffix ++ b'-' ∷ []) ≡ true)
      × (temp_name b sid suffix ≢ b)
temp_name-marked b sid suffix = (
  rw (marked b sid suffix) (contains-append b (suffix ++ b'-' ∷ []) sid),
  λ e. longer (ap length e),
)
  where
    longer : length (temp_name b sid suffix) ≡ length b → ⊥
    longer e = omega (arith, length-append (b ++ suffix) (b'-' ∷ sid), length-append b suffix)
