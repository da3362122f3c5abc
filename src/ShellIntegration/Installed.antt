-- ===== src/ShellIntegration/Installed.antt =====
-- A block that was put in is found, is not put in again, and is taken out without a trace.
use mobux.Prelude.{
  ℕ, ◌+◌, ◌-◌, true, false, [], ◌∷◌, ◌++◌, none, some, ◌≡◌, refl, sym, subst, ◌∙◌, ap, arith,
  length, take, inl, inr, Bool-cases, Option-cases, append_assoc, take-append_self,
  drop-append_self, length-append,
}
use mobux.Prelude.{if◌then◌else◌, leb}
use mobux.ShellIntegration.Blocks.{head_of, open_free, find_block-render, version_is, taken_out}
use mobux.ShellIntegration.Fences.{starts_with_self, find-here, find-append, find-newline}
use mobux.ShellIntegration.{
  Shell, fence_open, fence_close, current_version, blank_before, block_at, find_block, inside,
  render_block, block_state, shell_state, installed, text, ends_with_newline, ended_line,
  with_blank_line, unchanged, replaced, replace_block, install_into, install_with_home,
  uninstall_with_home, after, snippet,
}
use mobux.Strings.Suffix.{strip_last-some}
use mobux.Strings.{chars, find, newline, print_u64, print_digits, starts_with, strip_last}
use mobux.Utf8.{Text, eq_bytes}

-- The text with its last line ended, where there is any.
unfoldable pub with_final_newline : Text → Text
with_final_newline [] = []
with_final_newline (c ∷ t) = ended_line (c ∷ t)

ended_line-last : (c : Text) → (y : Text) × (ended_line c ≡ y ++ newline ∷ [])
unfolding ended_line ends_with_newline
ended_line-last c = elim (Option-cases (strip_last newline c)) [
  | inl e ↦ (c, rw (e, ended_line, ends_with_newline) refl)
  | inr (y, e) ↦ (y, rw (e, ended_line, ends_with_newline) (strip_last-some newline c y e))
]

ended_line-no_open : (c : Text) → find fence_open c ≡ none → find fence_open (ended_line c) ≡ none
unfolding ended_line
ended_line-no_open c h = elim (Bool-cases (ends_with_newline c)) [
  | inl e ↦ rw e h
  | inr e ↦ rw e (find-newline b'#' (chars " >>> mobux OSC 133 (managed) >>>") c open_free h)
]

open_here : (s : Text) → find fence_open (render_block s) ≡ some 0
unfolding render_block
open_here s =
    let rest = inside s ++ (fence_close ++ newline ∷ []) in
    find-here fence_open b'#' (chars " >>> mobux OSC 133 (managed) >>>" ++ rest)
      (starts_with_self fence_open rest)

find-open :
    (s c : Text)
    → find fence_open c ≡ none
    → find fence_open (with_blank_line c ++ render_block s) ≡ some (length (with_blank_line c))
unfolding with_blank_line
find-open s [] h = open_here s
find-open s (c ∷ t) h =
    let x = ended_line (c ∷ t) in
    ap (find fence_open) (append_assoc x (newline ∷ []) (render_block s))
    ∙ find-append b'#' (chars " >>> mobux OSC 133 (managed) >>>") x (render_block s) 0 open_free
        (ended_line-no_open (c ∷ t) h) (open_here s)
    ∙ ap some (omega (arith, length-append x (newline ∷ [])))

-- An empty line in front goes with the block.
blank_before-end :
    (y b : Text)
    → blank_before
        (((y ++ newline ∷ []) ++ newline ∷ []) ++ b)
        (length ((y ++ newline ∷ []) ++ newline ∷ []))
      ≡ true
unfolding blank_before eq_bytes
blank_before-end y b =
    let len : length ((y ++ newline ∷ []) ++ newline ∷ []) ≡ length y + 2 =
      omega
        (arith, length-append (y ++ newline ∷ []) (newline ∷ []), length-append y (newline ∷ [])) in
    let before : length y + 2 - 2 ≡ length y = omega arith in
    let enough : leb 2 (length y + 2) ≡ true = ground arith in
    let split : ((y ++ newline ∷ []) ++ newline ∷ []) ++ b ≡ y ++ newline ∷ newline ∷ b =
      append_assoc (y ++ newline ∷ []) (newline ∷ []) b
      ∙ append_assoc y (newline ∷ []) (newline ∷ b) in
    rw (len, enough, before, split, drop-append_self y (newline ∷ newline ∷ b)) refl

start_of :
    (x b : Text)
    → blank_before ((x ++ newline ∷ []) ++ b) (length (x ++ newline ∷ [])) ≡ true
    → take
        (if blank_before ((x ++ newline ∷ []) ++ b) (length (x ++ newline ∷ []))
          then length (x ++ newline ∷ []) - 1
          else length (x ++ newline ∷ []))
        ((x ++ newline ∷ []) ++ b)
      ≡ x
start_of x b h =
    let len : length (x ++ newline ∷ []) - 1 ≡ length x =
      omega (arith, length-append x (newline ∷ [])) in
    rw h (rw (len, append_assoc x (newline ∷ []) b) (take-append_self x (newline ∷ b)))

block_start :
    (s c : Text) (close_rel : ℕ)
    → take
        (block_at
          (with_blank_line c ++ render_block s)
          (length (with_blank_line c))
          close_rel).start
        (with_blank_line c ++ render_block s)
      ≡ with_final_newline c
unfolding block_at with_blank_line with_final_newline
block_start s [] close_rel =
    elim (blank_before (render_block s) 0)
      as (λ b. take (if b then 0 else 0) (render_block s) ≡ []) [ true ↦ refl | false ↦ refl ]
block_start s (c ∷ t) close_rel =
    let x = ended_line (c ∷ t) in
    let (y, e) = ended_line-last (c ∷ t) in
    start_of x (render_block s) (
      subst
        (λ z.
          blank_before ((z ++ newline ∷ []) ++ render_block s) (length (z ++ newline ∷ [])) ≡ true)
        (sym e) (blank_before-end y (render_block s)))

install_into-fresh :
    (block c : Text)
    → find fence_open c ≡ none
    → install_into block (text c) ≡ replaced c (with_blank_line c ++ block)
unfolding install_into find_block
install_into-fresh block c h = rw (h, find_block, install_into) refl

-- A text without the opening fence, and a snippet without the closing one.
module _ (s c : Text) (no_close : find fence_close (head_of s) ≡ none)
    (no_open : find fence_open c ≡ none) where
  -- The start file with the block put in.
  abbrev pub with_block : Text
  with_block = with_blank_line c ++ render_block s

  -- The block is put in behind an empty line, it is then found in its current version, putting it in
  -- again changes nothing, and taking it out leaves the text with its last line ended.
  pub install-uninstall :
      (install_into (render_block s) (text c) ≡ replaced c with_block)
      × (shell_state (text with_block) ≡ installed current_version)
      × (install_into (render_block s) (text with_block) ≡ unchanged)
      × (after (text with_block) (uninstall_with_home (text with_block))
          ≡ text (with_final_newline c))
  unfolding shell_state block_state install_into replace_block
  install-uninstall =
      let pre = with_blank_line c in
      let first = find-open s c no_open in
      let found = find_block-render s no_close pre first in
      let version = version_is s no_close pre first in
      (
        install_into-fresh (render_block s) c no_open,
        rw (found, version) refl,
        rw (found, install_into, version) refl,
        taken_out s no_close pre first (with_final_newline c) (block_start s c (length (inside s))),
      )

-- The snippet of every shell is without the closing fence.
pub snippet-no_close : (shell : Shell) → find fence_close (head_of (snippet shell)) ≡ none
unfolding snippet find starts_with eq_bytes print_u64 print_digits
snippet-no_close Shell.bash = refl
snippet-no_close Shell.zsh = refl
snippet-no_close Shell.fish = refl

-- For every shell, where the start file's text is without the opening fence: installing puts the block
-- behind an empty line, the file then counts as installed in the current version, installing again
-- changes nothing, and uninstalling leaves the text with its last line ended.
pub install_with_home-uninstall_with_home :
    (shell : Shell) (c : Text)
    → find fence_open c ≡ none
    → let file = text (with_blank_line c ++ render_block (snippet shell)) in
      (after (text c) (install_with_home shell (text c)) ≡ file)
      × (shell_state file ≡ installed current_version)
      × (install_with_home shell file ≡ unchanged)
      × (after file (uninstall_with_home file) ≡ text (with_final_newline c))
unfolding install_with_home after
install_with_home-uninstall_with_home shell c no_open =
    let (put, state, again, out) =
      install-uninstall (snippet shell) c (snippet-no_close shell) no_open in
    (ap (after (text c)) put, state, again, out)
