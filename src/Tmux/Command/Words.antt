-- ===== src/Tmux/Command/Words.antt =====
-- How a POSIX shell reads the command that is sent to it.
use mobux.Prelude.{
  ℕ, Bool, ◌||◌, List, [], ◌∷◌, ◌++◌, Option, none, some, map, ◌==◌, within, if◌then◌else◌, ◌≡◌,
  sym, subst, ◌∙◌, ap, append-nil, append_assoc, arith, inl, inr, Bool-cases,
}
use mobux.Strings.{chars, join}
use mobux.Tmux.Command.{escape_quotes, shell_quote, remote_tmux}
use mobux.Utf8.{Text}

-- Between words, inside a word, inside single quotes, or behind a backslash.
pub data Mode : Type 0 where
  between word quoted escaped : Mode

-- What stands for itself outside quotes: letters, digits, and `-`, `_`, `.`, `/`, `:`, `=`, `@`, `+`, `,`, `%`.
abbrev is_plain : ℕ → Bool
is_plain c =
    within b'a' b'z' c
    || within b'A' b'Z' c
    || within b'-' b':' c
    || c == b'_'
    || c == b'='
    || c == b'@'
    || c == b'+'
    || c == b','
    || c == b'%'

abbrev add_word : Text → Option (List Text) → Option (List Text)
add_word w none = none
add_word w (some ws) = some (w ∷ ws)

-- The words of a simple command, or `none` where a quote is not closed or a character outside quotes
-- may mean more than itself. `current` is what the word holds so far.
unfoldable pub shell_words : Mode → Text → Text → Option (List Text)
shell_words between current [] = some []
shell_words word current [] = some (current ∷ [])
shell_words quoted current [] = none
shell_words escaped current [] = none
shell_words quoted current (c ∷ s) =
    let stay = shell_words quoted (current ++ c ∷ []) s in
    let leave = shell_words word current s in if c == b'\'' then leave else stay
shell_words escaped current (c ∷ s) = shell_words word (current ++ c ∷ []) s
shell_words between current (c ∷ s) =
    let blank = shell_words between [] s in
    let quote = shell_words quoted [] s in
    let escape = shell_words escaped [] s in
    let plain = shell_words word (c ∷ []) s in
    if c == b' '
    then blank
    else if c == b'\''
    then quote
    else if c == b'\\'
    then escape
    else if is_plain c
    then plain
    else none
shell_words word current (c ∷ s) =
    let blank = add_word current (shell_words between [] s) in
    let quote = shell_words quoted current s in
    let escape = shell_words escaped current s in
    let plain = shell_words word (current ++ c ∷ []) s in
    if c == b' '
    then blank
    else if c == b'\''
    then quote
    else if c == b'\\'
    then escape
    else if is_plain c
    then plain
    else none

quoted-escape_quotes :
    (s current rest : Text)
    → shell_words quoted current (escape_quotes s ++ b'\'' ∷ rest)
      ≡ shell_words word (current ++ s) rest
unfolding shell_words escape_quotes
quoted-escape_quotes [] current rest = ap (λ w. shell_words word w rest) (sym (append-nil current))
quoted-escape_quotes (c ∷ s) current rest =
    let longer : shell_words word ((current ++ c ∷ []) ++ s) rest
        ≡ shell_words word (current ++ c ∷ s) rest =
      ap (λ w. shell_words word w rest) (append_assoc current (c ∷ []) s) in
    elim (Bool-cases (c == b'\'')) [
      | inl e ↦
          let same : c ≡ b'\'' = ground arith in
          subst
            (λ x.
              shell_words quoted current (escape_quotes (x ∷ s) ++ b'\'' ∷ rest)
              ≡ shell_words word (current ++ x ∷ s) rest)
            (sym same)
            (quoted-escape_quotes s (current ++ b'\'' ∷ []) rest
              ∙ ap (λ w. shell_words word w rest) (append_assoc current (b'\'' ∷ []) s))
      | inr e ↦
          rw (e, shell_words) (rw e (quoted-escape_quotes s (current ++ c ∷ []) rest ∙ longer))
    ]

quoted_word :
    (a rest : Text) → shell_words between [] (shell_quote a ++ rest) ≡ shell_words word a rest
unfolding shell_words shell_quote
quoted_word a rest =
    ap (shell_words quoted []) (append_assoc (escape_quotes a) (b'\'' ∷ []) rest)
    ∙ quoted-escape_quotes a [] rest

join-words :
    (a : Text) (args : List Text)
    → shell_words between [] (join (chars " ") (map shell_quote (a ∷ args))) ≡ some (a ∷ args)
unfolding join shell_words
join-words a [] = ap (shell_words between []) (sym (append-nil (shell_quote a))) ∙ quoted_word a []
join-words a (b ∷ args) =
    ap (shell_words between [])
      (append_assoc (shell_quote a) (chars " ") (join (chars " ") (map shell_quote (b ∷ args))))
    ∙ quoted_word a (b' ' ∷ join (chars " ") (map shell_quote (b ∷ args)))
    ∙ ap (add_word a) (join-words b args)

-- The remote shell reads the words `tmux` and the arguments, unchanged, whatever they hold.
pub remote_tmux-words :
    (a : Text) (args : List Text)
    → shell_words between [] (remote_tmux (a ∷ args)) ≡ some (chars "tmux" ∷ a ∷ args)
unfolding remote_tmux shell_words
remote_tmux-words a args = ap (add_word (chars "tmux")) (join-words a args)
