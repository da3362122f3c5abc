-- ===== src/Tmux/History.antt =====
-- src/tmux.rs: the capture of a pane's history, and how the reply is taken apart.
pub mod RoundTrip
use mobux.Prelude.{
  ℕ, zero, suc, ◌+◌, ◌-◌, Bool, true, false, not, ◌&&◌, List, [], ◌∷◌, ◌++◌, Option, none, some,
  ltb, ◌==◌, if◌then◌else◌, length, take, drop, is_empty,
}
use mobux.Strings.{
  chars, newline, parse_uint, print_u64, split_lines, split_once, starts_with, trim,
}
use mobux.Tmux.Args.{exact_target}
use mobux.Utf8.{Text}

pub data HistoryScope : Type 0 where
  all : HistoryScope
  history : HistoryScope

abbrev when_history : HistoryScope → List Text → List Text
when_history all args = []
when_history history args = args

unfoldable pub capture_history_args : Text → ℕ → HistoryScope → List Text
capture_history_args session lines scope =
    (chars "capture-pane" ∷ chars "-p" ∷ chars "-e" ∷ [])
    ++ (when_history scope (chars "-J" ∷ [])
        ++ ((chars "-S" ∷ (chars "-" ++ print_u64 lines) ∷ [])
            ++ (when_history scope (chars "-E" ∷ chars "-1" ∷ [])
                ++ chars "-t" ∷ exact_target session ∷ [])))

-- What follows the first line feed, or nothing where there is none.
unfoldable pub after_first_line : Text → Text
after_first_line [] = []
after_first_line (c ∷ t) = let rest = after_first_line t in if c == newline then t else rest

unfoldable pub drop_partial_first_line : Text → Bool → Text
unfolding after_first_line
drop_partial_first_line text truncated = if truncated then after_first_line text else text

unfoldable pub straddle_args : Text → List Text
straddle_args session =
    chars "capture-pane"
    ∷ chars "-p"
    ∷ chars "-J"
    ∷ chars "-S"
    ∷ chars "-1"
    ∷ chars "-E"
    ∷ chars "0"
    ∷ chars "-t"
    ∷ exact_target session
    ∷ []

unfoldable pub joins_into_screen : Text → Bool
joins_into_screen out = length (split_lines out) == 1

pub record HistoryCapture : Type 0 where
  pub text : Text
  pub continues : Bool

unfoldable pub history_capture_args : Text → ℕ → Text → List Text
unfolding capture_history_args straddle_args
history_capture_args session lines delim =
    (chars "display-message"
      ∷ chars "-p"
      ∷ chars "-t"
      ∷ exact_target session
      ∷ chars "#{history_size}"
      ∷ chars ";"
      ∷ [])
    ++ (capture_history_args session lines history
        ++ ((chars ";" ∷ chars "display-message" ∷ chars "-p" ∷ delim ∷ chars ";" ∷ [])
            ++ straddle_args session))

abbrev map_suc : Option ℕ → Option ℕ
map_suc none = none
map_suc (some i) = some (suc i)

-- `rfind`: the last place where the needle stands. An index counts characters here; it is used only to
-- cut there.
unfoldable pub rfind : Text → Text → Option ℕ
rfind needle [] = if is_empty needle then some 0 else none
rfind needle (c ∷ s) = elim (rfind needle s) [
  | some i ↦ some (suc i)
  | none ↦ if starts_with (c ∷ s) needle then some 0 else none
]

unfoldable pub ends_with_newline : Text → Bool
ends_with_newline [] = false
ends_with_newline (c ∷ []) = c == newline
ends_with_newline (c ∷ d ∷ t) = ends_with_newline (d ∷ t)

-- The text in front of the marker and behind it.
unfoldable pub read_parts : ℕ → ℕ → Text → Text → Option HistoryCapture
unfolding drop_partial_first_line joins_into_screen ends_with_newline
read_parts size lines before after =
    if not (is_empty before) && not (ends_with_newline before)
    then none
    else if size == 0
    then some (record { text = []; continues = false })
    else some (record {
      text = drop_partial_first_line before (ltb lines size);
      continues = joins_into_screen after;
    })

unfoldable pub parse_rest : ℕ → ℕ → Text → Text → Option HistoryCapture
unfolding rfind read_parts
parse_rest size lines marker rest = elim (rfind marker rest) [
  | none ↦ none
  | some at ↦ read_parts size lines (take at rest) (drop (at + length marker) rest)
]

unfoldable pub parse_history_capture : Text → ℕ → Text → Option HistoryCapture
unfolding parse_rest
parse_history_capture out lines delim = elim (split_once newline out) [
  | none ↦ none
  | some (size, rest) ↦ elim (parse_uint 32 (trim size)) [
    | none ↦ none
    | some n ↦ parse_rest n lines (delim ++ newline ∷ []) rest
  ]
]
