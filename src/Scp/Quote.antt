-- ===== src/Scp/Quote.antt =====
-- internal/sshexec/scp.go: the command line, as the remote shell takes it apart.
use unwedge.Base.{
  ℕ, ◌≡◌, refl, sym, ap, ◌∙◌, Bytes, codes, Bool, ◌&&◌, ◌||◌, Option, none, some, List, [], ◌∷◌,
  ◌++◌, leb, ◌==◌, ==_iff, Bool-cases, inl, inr, append_assoc, append-nil, if◌then◌else◌,
}
use unwedge.Scp.{escape_quotes, shell_quote, upload_command, download_command}

-- Where the shell's reader stands: `special` behind an unquoted byte that means something to it.
pub data Place : Type 0 where
  between word quoted escaped special : Place

pub record Reader : Type 0 where
  pub place : Place
  pub current : Bytes
  pub words : List Bytes

-- Letters, digits and the marks that no shell treats apart.
unfoldable is_plain : ℕ → Bool
is_plain c =
    (leb b'a' c && leb c b'z')
    || (leb b'A' c && leb c b'Z')
    || (leb b'-' c && leb c b'9')
    || c == b'_'

unfoldable to_quoted : Reader → Reader
to_quoted r = record r { place = quoted }

unfoldable grown : Place → ℕ → Reader → Reader
grown p c r = record { place = p; current = r.current ++ c ∷ []; words = r.words }

unfoldable unquoted : ℕ → Reader → Reader
unfolding is_plain to_quoted grown
unquoted c r =
    if c == b'\''
    then to_quoted r
    else if c == b'\\'
    then record r { place = escaped }
    else if is_plain c
    then grown word c r
    else record r { place = special }

-- One byte of POSIX word splitting.
unfoldable read_byte : Place → ℕ → Reader → Reader
unfolding unquoted to_quoted grown
read_byte between c r = if c == b' ' then r else unquoted c r
read_byte word c r =
    if c == b' '
    then record { place = between; current = []; words = r.words ++ r.current ∷ [] }
    else unquoted c r
read_byte quoted c r = if c == b'\'' then record r { place = word } else grown quoted c r
read_byte escaped c r = grown word c r
read_byte special c r = r

unfoldable read_bytes : Reader → Bytes → Reader
unfolding read_byte
read_bytes r [] = r
read_bytes r (c ∷ s) = read_bytes (read_byte r.place c r) s

unfoldable finish_words : Place → Reader → Option (List Bytes)
finish_words between r = some r.words
finish_words word r = some (r.words ++ r.current ∷ [])
finish_words quoted r = none
finish_words escaped r = none
finish_words special r = none

-- The words of a command line, if it is nothing but words.
unfoldable pub shell_words : Bytes → Option (List Bytes)
unfolding read_bytes finish_words
shell_words s =
    let r = read_bytes (record { place = between; current = []; words = [] }) s in
    finish_words r.place r

in_quotes : Bytes → List Bytes → Reader
in_quotes w ws = record { place = quoted; current = w; words = ws }

-- Inside quotes, escaped text comes out as it was.
read_bytes-escape_quotes :
    (s rest w : Bytes) (ws : List Bytes)
    → read_bytes (in_quotes w ws) (escape_quotes s ++ rest)
      ≡ read_bytes (in_quotes (w ++ s) ws) rest
unfolding read_bytes read_byte escape_quotes in_quotes grown
read_bytes-escape_quotes [] rest w ws =
    ap (λ x. read_bytes (in_quotes x ws) rest) (sym (append-nil w))
read_bytes-escape_quotes (c ∷ s) rest w ws =
    let grow : read_bytes (in_quotes (w ++ c ∷ []) ws) (escape_quotes s ++ rest)
        ≡ read_bytes (in_quotes (w ++ c ∷ s) ws) rest =
      read_bytes-escape_quotes s rest (w ++ c ∷ []) ws
      ∙ ap (λ x. read_bytes (in_quotes x ws) rest) (append_assoc w (c ∷ []) s) in
    elim (Bool-cases (c == b'\'')) [
      | inl h ↦
          let e : b'\'' ≡ c = sym ((==_iff c b'\'').0 h) in
          rw h
            (ap (λ d. read_bytes (in_quotes (w ++ d ∷ []) ws) (escape_quotes s ++ rest)) e ∙ grow)
      | inr h ↦
          let plain : escape_quotes (c ∷ s) ≡ c ∷ escape_quotes s = rw h refl in
          let kept : read_byte quoted c (in_quotes w ws) ≡ in_quotes (w ++ c ∷ []) ws = rw h refl in
          ap (λ x. read_bytes (in_quotes w ws) (x ++ rest)) plain
          ∙ ap (λ r. read_bytes r (escape_quotes s ++ rest)) kept
          ∙ grow
    ]

quoted_words :
    (s w : Bytes) (ws : List Bytes)
    → finish_words
        (read_bytes (in_quotes w ws) (escape_quotes s ++ b'\'' ∷ [])).place
        (read_bytes (in_quotes w ws) (escape_quotes s ++ b'\'' ∷ []))
      ≡ some (ws ++ (w ++ s) ∷ [])
unfolding read_bytes read_byte in_quotes finish_words
quoted_words s w ws =
    ap (λ r. finish_words r.place r) (read_bytes-escape_quotes s (b'\'' ∷ []) w ws)

-- Whatever bytes the remote path has, the remote shell runs scp on that path and nothing else:
-- both commands are split into the four words `scp`, the direction, `--` and the path.
pub shell_words-command :
    (path : Bytes)
    → (shell_words (upload_command path) ≡ some (codes "scp" ∷ codes "-t" ∷ codes "--" ∷ path ∷ []))
      × (shell_words (download_command path)
          ≡ some (codes "scp" ∷ codes "-f" ∷ codes "--" ∷ path ∷ []))
unfolding shell_words upload_command download_command shell_quote read_bytes read_byte unquoted
    grown to_quoted is_plain in_quotes
shell_words-command path = (
  quoted_words path [] (codes "scp" ∷ codes "-t" ∷ codes "--" ∷ []),
  quoted_words path [] (codes "scp" ∷ codes "-f" ∷ codes "--" ∷ []),
)
