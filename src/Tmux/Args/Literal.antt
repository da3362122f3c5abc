-- ===== src/Tmux/Args/Literal.antt =====
-- How tmux reads the arguments that `send_text` gives it.
use mobux.Prelude.{
  ℕ, Bool, true, false, List, [], ◌∷◌, ◌++◌, none, some, ◌==◌, if◌then◌else◌, ◌≡◌, refl, sym, ◌∙◌,
  ap, append_assoc, inl, inr, Option-cases,
}
use mobux.Strings.{chars, strip_last}
use mobux.Strings.Suffix.{strip_last-append, strip_last-some}
use mobux.Tmux.Args.{literal_argument, exact_target, text_args, enter_args, send_text_args}
use mobux.Utf8.{Text}

-- An argument that ends in `;` ends its command, unless the `;` is escaped: then it stands for itself.
unfoldable pub read_argument : Text → Text × Bool
read_argument arg = elim (strip_last b';' arg) [
  | none ↦ (arg, false)
  | some rest ↦ elim (strip_last b'\\' rest) [
    | some r ↦ (r ++ b';' ∷ [], false)
    | none ↦ (rest, true)
  ]
]

abbrev cons_nonempty : Text → List Text → List Text
cons_nonempty [] ws = ws
cons_nonempty (c ∷ t) ws = (c ∷ t) ∷ ws

abbrev onto_first : Text → List (List Text) → List (List Text)
onto_first w [] = (w ∷ []) ∷ []
onto_first w (ws ∷ rest) = (w ∷ ws) ∷ rest

-- The commands that the arguments make up.
unfoldable pub read_commands : List Text → List (List Text)
unfolding read_argument
read_commands [] = []
read_commands (arg ∷ args) =
    let (word, ends) = read_argument arg in
    let rest = read_commands args in
    if ends then cons_nonempty word [] ∷ rest else onto_first word rest

read_argument-plain : (arg : Text) → strip_last b';' arg ≡ none → read_argument arg ≡ (arg, false)
unfolding read_argument
read_argument-plain arg e = rw (e, read_argument) refl

read_argument-escaped : (r : Text) → read_argument (r ++ chars "\\;") ≡ (r ++ b';' ∷ [], false)
unfolding read_argument
read_argument-escaped r =
    let split : r ++ chars "\\;" ≡ (r ++ b'\\' ∷ []) ++ b';' ∷ [] =
      sym (append_assoc r (b'\\' ∷ []) (b';' ∷ [])) in
    rw (split, read_argument)
      (rw (strip_last-append b';' (r ++ b'\\' ∷ []), strip_last-append b'\\' r) refl)

-- Text that is made an argument is read as it was.
pub read-literal_argument : (text : Text) → read_argument (literal_argument text) ≡ (text, false)
unfolding literal_argument
read-literal_argument text = elim (Option-cases (strip_last b';' text)) [
  | inl e ↦ rw (e, literal_argument) (read_argument-plain text e)
  | inr (r, e) ↦
      rw (e, literal_argument)
        (read_argument-escaped r ∙ ap (λ s. (s, false)) (sym (strip_last-some b';' text r e)))
]

strip_last-other : (x y : ℕ) (s : Text) → (y == x) ≡ false → strip_last x (s ++ y ∷ []) ≡ none
unfolding strip_last
strip_last-other x y [] h = rw (h, strip_last) refl
strip_last-other x y (c ∷ []) h = rw (h, strip_last) refl
strip_last-other x y (c ∷ d ∷ s) h = rw (strip_last-other x y (d ∷ s) h) refl

exact_target-plain :
    (session : Text) → read_argument (exact_target session) ≡ (exact_target session, false)
unfolding exact_target
exact_target-plain session =
    read_argument-plain (exact_target session) (strip_last-other b';' b':' (b'=' ∷ session) refl)

-- Where the text is not empty and Enter is asked for, tmux reads two commands, one that types the text
-- and one that presses Enter, whatever the text holds.
pub send_text_args-commands :
    (session : Text) (c : ℕ) (text : Text)
    → read_commands (send_text_args session (c ∷ text) true)
      ≡ (chars "send-keys"
          ∷ chars "-l"
          ∷ chars "-t"
          ∷ exact_target session
          ∷ chars "--"
          ∷ (c ∷ text)
          ∷ [])
        ∷ (chars "send-keys" ∷ chars "-t" ∷ exact_target session ∷ chars "Enter" ∷ [])
        ∷ []
unfolding send_text_args text_args enter_args read_commands read_argument strip_last
send_text_args-commands session c text =
    rw (exact_target-plain session, read-literal_argument (c ∷ text)) refl
