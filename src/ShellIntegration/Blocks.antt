-- ===== src/ShellIntegration/Blocks.antt =====
-- A block behind a text: where it is found, in which version, and how it is taken out.
use mobux.Prelude.{
  ◌+◌, true, [], ◌∷◌, ◌++◌, none, some, ◌≡◌, refl, sym, ◌∙◌, ap, arith, length, take, drop, all,
  append_assoc, append-nil, take-append_self, drop-append_more, drop-append_self, drop_all,
  length-append,
}
use mobux.ShellIntegration.Fences.{find-append}
use mobux.ShellIntegration.{
  fence_open, fence_close, current_version, version_of, one_newline, block_at, find_block, inside,
  render_block, text, uninstall_with_home, after,
}
use mobux.Strings.Lines.{is_free}
use mobux.Strings.{
  chars, find, newline, parse_uint, print_u64, print_digits, split_lines, starts_with, strip_prefix,
  trim, trim_start, parse_unsigned, decimal,
}
use mobux.Utf8.{Text, eq_bytes, is_whitespace, trim_end}

-- Between the fences, without the last line feed.
abbrev pub head_of : Text → Text
head_of s = newline ∷ (chars "# version: " ++ (print_u64 current_version ++ newline ∷ s))

inside-head_of : (s : Text) → inside s ≡ head_of s ++ newline ∷ []
unfolding print_u64 print_digits
inside-head_of s = refl

version_of-inside : (s : Text) → version_of (split_lines (inside s)) ≡ current_version
unfolding version_of split_lines print_u64 print_digits strip_prefix trim trim_start trim_end
    is_whitespace parse_uint parse_unsigned decimal all
version_of-inside s = refl

pub open_free : is_free newline fence_open ≡ true
unfolding all
open_free = refl

close_free : is_free newline fence_close ≡ true
unfolding all
close_free = refl

-- Four texts and a line feed, one behind the other.
split_last :
    (a b c d : Text)
    → a ++ (b ++ (c ++ (d ++ newline ∷ []))) ≡ (a ++ (b ++ (c ++ d))) ++ newline ∷ []
split_last a b c d =
    ap (λ t. a ++ (b ++ t)) (sym (append_assoc c d (newline ∷ [])))
    ∙ ap (λ t. a ++ t) (sym (append_assoc b (c ++ d) (newline ∷ [])))
    ∙ sym (append_assoc a (b ++ (c ++ d)) (newline ∷ []))

length_of :
    (a b c d : Text) → length a + length b + length c + length d ≡ length (a ++ (b ++ (c ++ d)))
length_of a b c d =
    rw (length-append a (b ++ (c ++ d)), length-append b (c ++ d), length-append c d) (omega arith)

last_newline :
    (a b c d : Text)
    → drop (length a + length b + length c + length d) (a ++ (b ++ (c ++ (d ++ newline ∷ []))))
      ≡ newline ∷ []
last_newline a b c d =
    rw (length_of a b c d, split_last a b c d)
      (drop-append_self (a ++ (b ++ (c ++ d))) (newline ∷ []))

whole_length :
    (a b c d : Text)
    → length a + length b + length c + length d + 1
      ≡ length (a ++ (b ++ (c ++ (d ++ newline ∷ []))))
whole_length a b c d =
    rw (length_of a b c d, split_last a b c d)
      (sym (length-append (a ++ (b ++ (c ++ d))) (newline ∷ [])))

close_here : find fence_close (fence_close ++ newline ∷ []) ≡ some 0
unfolding find starts_with eq_bytes
close_here = refl

length-head_of : (s : Text) → length (head_of s) + 1 + 0 ≡ length (inside s)
length-head_of s =
    omega (arith, ap length (inside-head_of s), length-append (head_of s) (newline ∷ []))

module _ (s : Text) (no_close : find fence_close (head_of s) ≡ none) where
  find-close :
      find fence_close (inside s ++ (fence_close ++ newline ∷ [])) ≡ some (length (inside s))
  find-close =
      let z = fence_close ++ newline ∷ [] in
      ap (λ t. find fence_close (t ++ z)) (inside-head_of s)
      ∙ ap (find fence_close) (append_assoc (head_of s) (newline ∷ []) z)
      ∙ find-append b'#' (chars " <<< mobux OSC 133 (managed) <<<") (head_of s) z 0 close_free
          no_close close_here
      ∙ ap some (length-head_of s)

  -- A block whose opening fence is the first.
  module _ (pre : Text) (first : find fence_open (pre ++ render_block s) ≡ some (length pre)) where
    behind_open :
        drop (length pre + length fence_open) (pre ++ render_block s)
        ≡ inside s ++ (fence_close ++ newline ∷ [])
    unfolding render_block
    behind_open =
        drop-append_more (length fence_open) pre (render_block s)
        ∙ drop-append_self fence_open (inside s ++ (fence_close ++ newline ∷ []))

    pub find_block-render :
        find_block (pre ++ render_block s)
        ≡ some (block_at (pre ++ render_block s) (length pre) (length (inside s)))
    unfolding find_block
    find_block-render = rw (first, find_block, behind_open, find-close) refl

    pub version_is :
        (block_at (pre ++ render_block s) (length pre) (length (inside s))).version
        ≡ current_version
    unfolding block_at
    version_is =
        ap (λ t. version_of (split_lines (take (length (inside s)) t))) behind_open
        ∙ ap (λ t. version_of (split_lines t))
            (take-append_self (inside s) (fence_close ++ newline ∷ []))
        ∙ version_of-inside s

    end_is :
        (block_at (pre ++ render_block s) (length pre) (length (inside s))).end
        ≡ length (pre ++ render_block s)
    unfolding block_at render_block
    end_is =
        ap
          (λ t.
            length pre + length fence_open + length (inside s) + length fence_close + one_newline t)
          (last_newline pre fence_open (inside s) fence_close)
        ∙ whole_length pre fence_open (inside s) fence_close

    pub taken_out :
        (keep : Text)
        → take
            (block_at (pre ++ render_block s) (length pre) (length (inside s))).start
            (pre ++ render_block s)
          ≡ keep
        → after (text (pre ++ render_block s)) (uninstall_with_home (text (pre ++ render_block s)))
          ≡ text keep
    unfolding uninstall_with_home after
    taken_out keep h =
        let whole = pre ++ render_block s in
        rw (find_block-render, uninstall_with_home, h, end_is)
          (ap text
            (ap (λ t. keep ++ t) (drop_all (length whole) whole (omega arith)) ∙ append-nil keep))
