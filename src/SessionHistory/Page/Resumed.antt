-- ===== src/SessionHistory/Page/Resumed.antt =====
-- A cursor's offset is trusted where the entry behind it has the next number, and else passed over.
use mobux.External.{Json}
use mobux.Prelude.{
  ℕ, ◌+◌, ◌%◌, ◌^◌, ◌≤◌, ◌<◌, ◌≡◌, refl, sym, ap, subst, ◌∙◌, ◌⊎◌, inl, inr, Bool, true, false,
  ◌&&◌, List, [], ◌∷◌, ◌++◌, none, some, arith, ltb, ◌==◌, length, take, drop, take-append-drop,
  length-take, take_all, drop_all, is_empty, Bool-cases, Option-cases,
}
use mobux.SessionHistory.Page.Progress.{is_new, any_new}
use mobux.SessionHistory.Page.Seek.{Continues, Continues-trans, scan_forward-seek, scan_forward-end}
use mobux.SessionHistory.Page.Whole.{IsWhole, raw_lines-append}
use mobux.SessionHistory.Page.{
  scan_forward, end_page, read_from, read_page, resumes_at_seq, raw_lines, or_zero,
}
use mobux.SessionHistory.Store.{seq_of}
use mobux.Utf8.{Bytes}

module _ (json : Json) where
  -- The numbers of the entries, in the order of their lines.
  unfoldable pub numbers : List Bytes → List ℕ
  numbers [] = []
  numbers (line ∷ lines) = elim (json.from_slice line) [
    | none ↦ numbers lines
    | some value ↦ or_zero json (seq_of json value) ∷ numbers lines
  ]

unfoldable pub ascends : List ℕ → Bool
ascends [] = true
ascends (a ∷ []) = true
ascends (a ∷ b ∷ ns) = ltb a b && ascends (b ∷ ns)

ascends-tail : (a : ℕ) (ns : List ℕ) → ascends (a ∷ ns) ≡ true → ascends ns ≡ true
unfolding ascends
ascends-tail a [] h = refl
ascends-tail a (b ∷ ns) h = elim (Bool-cases (ltb a b)) [
  | inl e ↦ rw e at h
  | inr e ↦ absurd (ground (arith, rw e at h))
]

-- A later number is larger.
ascends-later :
    (a : ℕ) (ns : List ℕ) (s : ℕ) (ms : List ℕ) → ascends (a ∷ (ns ++ s ∷ ms)) ≡ true → a < s
unfolding ascends
ascends-later a [] s ms h = ground arith
ascends-later a (b ∷ ns) s ms h = elim (Bool-cases (ltb a b)) [
  | inl e ↦
      let later = ascends-later b ns s ms (rw e at h) in
      let here : a < b = ground arith in omega arith
  | inr e ↦ absurd (ground (arith, rw e at h))
]

module _ (json : Json) where
  -- What stands before an entry has numbers below its own.
  any_new-before :
      (floor s : ℕ) (ls : List Bytes) (ms : List ℕ)
      → s ≤ floor + 1
      → ascends (numbers json ls ++ s ∷ ms) ≡ true
      → any_new json floor ls ≡ false
  unfolding numbers
  any_new-before floor s [] ms small h = refl
  any_new-before floor s (line ∷ ls) ms small h = elim (Option-cases (json.from_slice line)) [
    | inl e ↦
        let no_entry : is_new json floor line ≡ false = rw (e, is_new) refl in
        rw no_entry (any_new-before floor s ls ms small (rw (e, numbers) at h))
    | inr (v, e) ↦
        let n = or_zero json (seq_of json v) in
        let h' : ascends (n ∷ (numbers json ls ++ s ∷ ms)) ≡ true = rw (e, numbers) at h in
        let below : n < s = ascends-later n (numbers json ls) s ms h' in
        let old : is_new json floor line ≡ false = rw (e, is_new) (ground arith) in
        rw old (any_new-before floor s ls ms small (ascends-tail n (numbers json ls ++ s ∷ ms) h'))
  ]

  numbers-append : (a b : List Bytes) → numbers json (a ++ b) ≡ numbers json a ++ numbers json b
  unfolding numbers
  numbers-append [] b = refl
  numbers-append (line ∷ a) b = elim (Option-cases (json.from_slice line)) [
    | inl e ↦ rw (e, numbers) (numbers-append a b)
    | inr (v, e) ↦ rw (e, numbers) (ap (◌∷◌ (or_zero json (seq_of json v))) (numbers-append a b))
  ]

  first_number :
      (file : Bytes) (offset floor : ℕ) (ls : List Bytes)
      → raw_lines (drop offset file) ≡ ls
      → resumes_at_seq json file offset floor ≡ true
      → (s : ℕ) × (ms : List ℕ) × (s ≤ floor + 1) × (numbers json ls ≡ s ∷ ms)
  unfolding resumes_at_seq numbers
  first_number file offset floor [] e h = absurd (ground (arith, rw (resumes_at_seq, e) at h))
  first_number file offset floor (line ∷ ls) e h = elim (Option-cases (json.from_slice line)) [
    | inl p ↦ absurd (ground (arith, rw (resumes_at_seq, e, p) at h))
    | inr (v, p) ↦ elim (Option-cases (seq_of json v)) [
      | inl q ↦ absurd (ground (arith, rw (resumes_at_seq, e, p, q) at h))
      | inr (n, q) ↦
          let next : (n == (floor + 1) % 2 ^ 64) ≡ true = rw (resumes_at_seq, e, p, q) at h in
          (n, numbers json ls, ground arith, rw (p, numbers, q) refl)
    ]
  ]

  -- Where the offset is trusted in a file whose numbers ascend, nothing new stands before it.
  resumes_at_seq-old :
      (file : Bytes) (offset floor : ℕ)
      → IsWhole (take offset file)
      → ascends (numbers json (raw_lines file)) ≡ true
      → resumes_at_seq json file offset floor ≡ true
      → any_new json floor (raw_lines (take offset file)) ≡ false
  resumes_at_seq-old file offset floor whole up h =
      let before = take offset file in
      let behind = drop offset file in
      let (s, ms, small, first) = first_number file offset floor (raw_lines behind) refl h in
      let split =
        sym (ap raw_lines (take-append-drop offset file)) ∙ raw_lines-append before behind whole in
      let parts : numbers json (raw_lines file) ≡ numbers json (raw_lines before) ++ s ∷ ms =
        ap (numbers json) split
        ∙ numbers-append (raw_lines before) (raw_lines behind)
        ∙ ap (λ ns. numbers json (raw_lines before) ++ ns) first in
      any_new-before floor s (raw_lines before) ms small (subst (λ ns. ascends ns ≡ true) parts up)

  seek_offset :
      (file : Bytes) (offset floor limit : ℕ)
      → offset ≤ length file
      → IsWhole (take offset file)
      → any_new json floor (raw_lines (take offset file)) ≡ false
      → Continues json
          (scan_forward json file offset floor limit)
          (scan_forward json file 0 floor limit)
  seek_offset file offset floor limit inside whole old =
      let size : length (take offset file) ≡ offset = omega (arith, length-take offset file) in
      let seek =
        scan_forward-seek json (take offset file) (drop offset file) floor limit whole old in
      subst
        (λ n.
          Continues json (scan_forward json file n floor limit)
            (scan_forward json file 0 floor limit))
        size
        (subst
          (λ f.
            Continues json (scan_forward json f (length (take offset file)) floor limit)
              (scan_forward json f 0 floor limit))
          (take-append-drop offset file) seek)

  -- An offset at the end of the file is taken as it is: nothing new may be in the file then.
  abbrev pub EndIsOld : Bytes → ℕ → ℕ → Type 0
  EndIsOld file offset floor =
      ((offset == length file) ≡ false) ⊎ (any_new json floor (raw_lines file) ≡ false)

  read_from-end :
      (file : Bytes) (offset floor limit : ℕ)
      → offset ≡ length file
      → IsWhole (take offset file)
      → any_new json floor (raw_lines file) ≡ false
      → Continues json (end_page json floor offset) (scan_forward json file 0 floor limit)
  read_from-end file offset floor limit end whole old =
      let all_before : take offset file ≡ file = take_all offset file (omega (arith, end)) in
      Continues-trans json (end_page json floor offset) (scan_forward json file offset floor limit)
        (scan_forward json file 0 floor limit)
        (scan_forward-end json file offset floor limit (drop_all offset file (omega (arith, end))))
        (seek_offset file offset floor limit (omega (arith, end)) whole
          (ap (λ f. any_new json floor (raw_lines f)) all_before ∙ old))

  read_from-offset :
      (file : Bytes) (offset floor limit : ℕ)
      → IsWhole (take offset file)
      → ascends (numbers json (raw_lines file)) ≡ true
      → EndIsOld file offset floor
      → Continues json
          (read_from json file (some offset) floor limit)
          (read_from json file none floor limit)
  unfolding read_from
  read_from-offset file offset floor limit whole up end_old =
      elim (Bool-cases (offset == length file)) [
        | inl at_end ↦ elim end_old [
          | inl inside ↦ absurd (ground (arith, rw at_end at inside))
          | inr old ↦ rw at_end (read_from-end file offset floor limit (ground arith) whole old)
        ]
        | inr inside ↦ elim (Bool-cases (ltb offset (length file))) [
          | inr outside ↦ rw (inside, outside) (refl, refl, refl)
          | inl within ↦ elim (Bool-cases (resumes_at_seq json file offset floor)) [
            | inr stale ↦ rw (inside, within, stale) (refl, refl, refl)
            | inl trusted ↦
                rw (inside, within, trusted)
                  (seek_offset file offset floor limit (ground arith) whole
                    (resumes_at_seq-old file offset floor whole up trusted))
          ]
        ]
      ]

  -- A cursor with an offset gives the page that the cursor without it gives (the same entries, and the
  -- same position to go on from), however stale the offset is, if the entries' numbers ascend in the
  -- file, if the bytes before the offset are complete lines and, where the offset is the file's end, if
  -- no entry above the cursor's number is in the file.
  pub read_page-offset :
      (file : Bytes) (seq offset limit : ℕ)
      → IsWhole (take offset file)
      → ascends (numbers json (raw_lines file)) ≡ true
      → EndIsOld file offset seq
      → Continues json
          (read_page json (some file) (some (record { seq = seq; offset = some offset })) limit)
          (read_page json (some file) (some (record { seq = seq; offset = none })) limit)
  unfolding read_page
  read_page-offset file seq offset limit whole up end_old = elim (Bool-cases (is_empty file)) [
    | inl e ↦ rw e (refl, refl, refl)
    | inr e ↦ rw e (read_from-offset file offset seq limit whole up end_old)
  ]
