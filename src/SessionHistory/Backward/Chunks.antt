-- ===== src/SessionHistory/Backward/Chunks.antt =====
-- `BackwardLines` reads a file in chunks; the lines that it gives are those of the file as a whole.
use mobux.Prelude.{
  take-append_more, drop-append_more, ℕ, zero, suc, ◌+◌, ◌-◌, ◌≤◌, ◌<◌, min, ◌≡◌, refl, sym, ap,
  ◌∙◌, inl, inr, true, false, [], ◌∷◌, ◌++◌, Option, none, some, arith, ◌==◌, if◌then◌else◌, length,
  take, drop, length-take, append_assoc, is_empty, Bool-cases, Option-cases,
}
use mobux.SessionHistory.Backward.{
  BackwardLines, last_newline, next_line_loop, next_line, backward_chunk,
}
use mobux.Utf8.{Bytes}

abbrev pub or_newline : Option ℕ → ℕ → Option ℕ → Option ℕ
or_newline none len earlier = earlier
or_newline (some i) len earlier = some (len + i)

pub last_newline-append :
    (x y : Bytes) → last_newline (x ++ y) ≡ or_newline (last_newline y) (length x) (last_newline x)
unfolding last_newline
last_newline-append [] y = elim (Option-cases (last_newline y)) [
  | inl e ↦ rw e refl
  | inr (i, e) ↦ rw e (ground arith)
]
last_newline-append (b ∷ x) y =
    let rec = last_newline-append x y in
    elim (Option-cases (last_newline y)) [
      | inl e ↦ rw (rec, last_newline) (rw e refl)
      | inr (i, e) ↦ rw (rec, last_newline) (rw e (ground arith))
    ]

take_nil : (n : ℕ) → take {A = ℕ} n [] ≡ []
take_nil zero = refl
take_nil (suc n) = refl

is_empty-nil : (xs : Bytes) → is_empty xs ≡ true → xs ≡ []
is_empty-nil [] e = refl
is_empty-nil (x ∷ xs) e = ground arith

-- Two reads that meet are one.
pub take-split : (a b : ℕ) (xs : Bytes) → take a xs ++ take b (drop a xs) ≡ take (a + b) xs
take-split zero b xs = ground arith
take-split (suc a) b [] = rw (take_nil (suc a + b), take_nil b) refl
take-split (suc a) b (x ∷ xs) =
    let e : suc a + b ≡ suc (a + b) = omega arith in rw e (ap (◌∷◌ x) (take-split a b xs))

-- What is still to be walked: the part of the file that was not read, and the buffer.
abbrev pub content : Bytes → BackwardLines → Bytes
content file s = take s.remaining file ++ s.buf

-- The last line of some bytes, with its offset, and what stands before it.
abbrev pub last_line : Bytes → Option (ℕ × Bytes)
last_line c = elim (last_newline c) [
  | some i ↦ some (i + 1, drop (i + 1) c)
  | none ↦ if is_empty c then none else some (0, c)
]

abbrev pub before_last : Bytes → Bytes
before_last c = elim (last_newline c) [ some i ↦ take i c | none ↦ [] ]

-- A walk gives the last line of its content, and goes on with what stands before.
abbrev pub Walks : Bytes → BackwardLines → BackwardLines × Option (ℕ × Bytes) → Type 0
Walks file s (s', line) =
    (line ≡ last_line (content file s))
    × (content file s' ≡ before_last (content file s))
    × (s'.remaining ≤ length file)

module _ (c : Bytes) where
  last_line_at :
      (i : ℕ)
      → last_newline c ≡ some i
      → (last_line c ≡ some (i + 1, drop (i + 1) c)) × (before_last c ≡ take i c)
  last_line_at i e = (rw (e, last_line) refl, rw (e, before_last) refl)

  last_line_whole :
      last_newline c ≡ none
      → (last_line c ≡ (if is_empty c then none else some (0, c))) × (before_last c ≡ [])
  last_line_whole e = (rw (e, last_line) refl, rw (e, before_last) refl)

module _ (size fuel : ℕ) (file : Bytes) (s : BackwardLines) where
  loop-found :
      (i : ℕ)
      → s.remaining ≤ length file
      → last_newline s.buf ≡ some i
      → Walks file s (next_line_loop size (suc fuel) file s)
  unfolding next_line_loop
  loop-found i h e =
      let front = take s.remaining file in
      let whole : length front ≡ s.remaining = omega (arith, length-take s.remaining file) in
      let at : last_newline (front ++ s.buf) ≡ some (s.remaining + i) =
        last_newline-append front s.buf ∙ rw e (rw whole refl) in
      let (last, before) = last_line_at (front ++ s.buf) (s.remaining + i) at in
      let behind : drop (s.remaining + i + 1) (front ++ s.buf) ≡ drop (i + 1) s.buf =
        ap (λ n. drop n (front ++ s.buf)) (omega arith) ∙ drop-append_more (i + 1) front s.buf in
      let upto : take (s.remaining + i) (front ++ s.buf) ≡ front ++ take i s.buf =
        ap (λ n. take n (front ++ s.buf)) (omega arith) ∙ take-append_more i front s.buf in
      rw (e, next_line_loop) (sym (last ∙ rw behind refl), sym (before ∙ upto), h)

  loop-start :
      s.remaining ≡ 0
      → last_newline s.buf ≡ none
      → Walks file s (next_line_loop size (suc fuel) file s)
  unfolding next_line_loop
  loop-start z e =
      let (last, before) = last_line_whole s.buf e in
      let start : (s.remaining == 0) ≡ true = ground arith in
      elim (Bool-cases (is_empty s.buf)) [
        | inl none_left ↦
            rw (e, next_line_loop)
              (rw (start, none_left)
                (rw z (
                  sym (last ∙ rw none_left refl),
                  is_empty-nil s.buf none_left ∙ sym before,
                  omega arith,
                )))
        | inr some_left ↦
            rw (e, next_line_loop)
              (rw (start, some_left)
                (rw z (sym (last ∙ rw some_left refl), sym before, omega arith)))
      ]

  loop-more :
      (s.remaining == 0) ≡ false
      → last_newline s.buf ≡ none
      → s.remaining ≤ length file
      → (let start = s.remaining - min size s.remaining in
          let s' : BackwardLines = record {
            remaining = start;
            buf = take (min size s.remaining) (drop start file) ++ s.buf;
          } in
          Walks file s' (next_line_loop size fuel file s'))
      → Walks file s (next_line_loop size (suc fuel) file s)
  unfolding next_line_loop
  loop-more more e h rec =
      let len = min size s.remaining in
      let start = s.remaining - len in
      let same : take start file ++ (take len (drop start file) ++ s.buf)
          ≡ take s.remaining file ++ s.buf =
        sym (append_assoc (take start file) (take len (drop start file)) s.buf)
        ∙ ap (λ x. x ++ s.buf) (take-split start len file ∙ ap (λ n. take n file) (ground arith)) in
      rw (e, next_line_loop) (rw more (rw (← same) rec))

next_line_loop-Walks :
    (size fuel : ℕ) (file : Bytes) (s : BackwardLines)
    → 1 ≤ size
    → s.remaining ≤ length file
    → s.remaining < fuel
    → Walks file s (next_line_loop size fuel file s)
next_line_loop-Walks size zero file s z h f = absurd (ground arith)
next_line_loop-Walks size (suc fuel) file s z h f = elim (Option-cases (last_newline s.buf)) [
  | inr (i, e) ↦ loop-found size fuel file s i h e
  | inl e ↦ elim (Bool-cases (s.remaining == 0)) [
    | inl start ↦ loop-start size fuel file s (ground arith) e
    | inr more ↦
        let start = s.remaining - min size s.remaining in
        loop-more size fuel file s more e h (
          next_line_loop-Walks size fuel file
            (record {
              remaining = start;
              buf = take (min size s.remaining) (drop start file) ++ s.buf;
            })
            z (ground arith) (ground arith))
  ]
]

-- The next line that a walk gives is the last line of what it has not given yet, whole and with its
-- offset in the file, wherever the chunks that it reads begin and end, and the walk goes on with the rest;
-- what it has still to read must lie in the file.
pub next_line-Walks :
    (file : Bytes) (s : BackwardLines) → s.remaining ≤ length file → Walks file s (next_line file s)
unfolding next_line
next_line-Walks file s h =
    next_line_loop-Walks backward_chunk (suc s.remaining) file s (omega arith) h (omega arith)
