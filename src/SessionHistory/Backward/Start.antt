-- ===== src/SessionHistory/Backward/Start.antt =====
-- Where a backward walk begins: behind the last newline before the end that it is given.
use mobux.Prelude.{
  ℕ, zero, suc, ◌+◌, ◌-◌, ◌≤◌, ◌≡◌, refl, ap, ◌∙◌, inl, inr, false, [], ◌++◌, Option, none, some,
  arith, ◌==◌, length, take, drop, length-take, Bool-cases, Option-cases,
}
use mobux.SessionHistory.Backward.Chunks.{last_newline-append, take-split}
use mobux.SessionHistory.Backward.{BackwardLines, last_newline, find_end, from_end, backward_chunk}
use mobux.Utf8.{Bytes}

-- Just before the newline found, with nothing read.
abbrev pub walk_from : Option ℕ → Option BackwardLines
walk_from none = none
walk_from (some i) = some (record { remaining = i; buf = [] })

module _ (size fuel : ℕ) (file : Bytes) (scan_end : ℕ) where
  find_end-here :
      (i : ℕ)
      → (scan_end == 0) ≡ false
      → (let start = scan_end - size in
          last_newline (take (scan_end - start) (drop start file)) ≡ some i)
      → find_end size (suc fuel) file scan_end ≡ walk_from (some (scan_end - size + i))
  unfolding find_end
  find_end-here i more e = rw (more, e) refl

  find_end-earlier :
      (scan_end == 0) ≡ false
      → (let start = scan_end - size in
          last_newline (take (scan_end - start) (drop start file)) ≡ none)
      → find_end size (suc fuel) file scan_end ≡ find_end size fuel file (scan_end - size)
  unfolding find_end
  find_end-earlier more e = rw (more, e) refl

find_end-last_newline :
    (size fuel : ℕ) (file : Bytes) (scan_end : ℕ)
    → 1 ≤ size
    → scan_end ≤ fuel
    → scan_end ≤ length file
    → find_end size fuel file scan_end ≡ walk_from (last_newline (take scan_end file))
unfolding find_end last_newline
find_end-last_newline size zero file scan_end z h k =
    let none_left : scan_end ≡ 0 = omega arith in rw none_left refl
find_end-last_newline size (suc fuel) file scan_end z h k = elim (Bool-cases (scan_end == 0)) [
  | inl start ↦ let none_left : scan_end ≡ 0 = ground arith in rw none_left refl
  | inr more ↦
      let start = scan_end - size in
      let chunk = take (scan_end - start) (drop start file) in
      let front : length (take start file) ≡ start = omega (arith, length-take start file) in
      let whole : take start file ++ chunk ≡ take scan_end file =
        take-split start (scan_end - start) file ∙ ap (λ n. take n file) (omega arith) in
      let joined = last_newline-append (take start file) chunk in
      elim (Option-cases (last_newline chunk)) [
        | inr (i, e) ↦
            find_end-here size fuel file scan_end i more e
            ∙ rw (← whole) (rw joined (rw e (rw front refl)))
        | inl e ↦
            find_end-earlier size fuel file scan_end more e
            ∙ find_end-last_newline size fuel file start z (ground arith) (omega arith)
            ∙ rw (← whole) (rw joined (rw e refl))
      ]
]

-- For an `end` in the file the walk begins just before the last newline among the first `end` bytes, and
-- there is none where these hold no newline, wherever the chunks begin that it is searched in.
pub from_end-last_newline :
    (file : Bytes) (end : ℕ)
    → end ≤ length file
    → from_end file end ≡ walk_from (last_newline (take end file))
unfolding from_end
from_end-last_newline file end h =
    find_end-last_newline backward_chunk end file end (omega arith) (omega arith) h
