-- ===== src/SessionHistory/Page/Seek.antt =====
-- A page that is read from an offset is the page that a scan of the whole file gives.
use mathlib.Core.List.{flatten}
use mobux.External.{Json}
use mobux.Prelude.{
  ℕ, ◌+◌, ◌≡◌, refl, ap, ◌∙◌, inl, inr, true, false, List, [], ◌∷◌, ◌++◌, arith, leb, ◌==◌, length,
  length-append, drop, drop-append_self, Bool-cases, Option-cases,
}
use mobux.SessionHistory.Page.Progress.{is_new, any_new}
use mobux.SessionHistory.Page.{
  Page, Scan, Round, skipped, full, taken, round, scan_lines, scan_forward, end_page, skip_line,
  start_scan, raw_lines, or_zero,
}
use mobux.SessionHistory.Store.{seq_of}
use mobux.Utf8.{Bytes}
use mobux.SessionHistory.Page.Whole.{IsWhole, raw_lines-append}

length-nil : (xs : Bytes) → length xs ≡ 0 → xs ≡ []
length-nil [] e = refl
length-nil (x ∷ xs) e = absurd (omega arith)

==→≡ : (a b : ℕ) → (a == b) ≡ true → a ≡ b
==→≡ a b e = ground arith

module _ (json : Json) where
  round-old :
      (floor : ℕ) (line : Bytes) (st : Scan json)
      → is_new json floor line ≡ false
      → round json line floor st ≡ skipped
  unfolding round
  round-old floor line st h = elim (Option-cases (json.from_slice line)) [
    | inl p ↦ rw (p, round) refl
    | inr (v, p) ↦
        let old : leb (or_zero json (seq_of json v)) floor ≡ true =
          let h' = rw (p, is_new) at h in ground arith in
        rw (p, round) (rw old refl)
  ]

  -- The loop stands at offset `k`.
  abbrev at_offset : ℕ → Scan json → Scan json
  at_offset k st = record st { next_offset = k; position = k }

  scan_lines-old :
      (floor limit k : ℕ) (ls rest : List Bytes) (st : Scan json)
      → any_new json floor ls ≡ false
      → scan_lines json floor limit (ls ++ rest) (at_offset k st)
        ≡ scan_lines json floor limit rest (at_offset (k + length (flatten ls)) st)
  unfolding scan_lines flatten
  scan_lines-old floor limit k [] rest st h =
      ap (λ n. scan_lines json floor limit rest (at_offset n st)) (omega arith)
  scan_lines-old floor limit k (line ∷ ls) rest st h = elim (Bool-cases (is_new json floor line)) [
    | inl new ↦ ground arith
    | inr old ↦
        rw (round-old floor line (at_offset k st) old, scan_lines)
          (scan_lines-old floor limit (k + length line) ls rest st (rw old at h)
            ∙ ap (λ n. scan_lines json floor limit rest (at_offset n st))
                (omega (arith, length-append line (flatten ls))))
  ]

  abbrev moved : ℕ → Scan json → Scan json
  moved p st = record st { prev_offset = p }

  abbrev SamePage : Scan json → Scan json → Type 0
  SamePage a b =
      (a.entries ≡ b.entries) × (a.next_seq ≡ b.next_seq) × (a.next_offset ≡ b.next_offset)

  -- Before the first entry is taken the loop does not look at `prev_offset`.
  scan_round-moved :
      (floor limit p : ℕ) (line : Bytes) (lines : List Bytes) (st : Scan json) (r : Round json)
      → ((st : Scan json)
          → st.entries ≡ []
          → SamePage
              (scan_lines json floor limit lines (moved p st))
              (scan_lines json floor limit lines st))
      → round json line floor st ≡ r
      → st.entries ≡ []
      → SamePage
          (scan_lines json floor limit (line ∷ lines) (moved p st))
          (scan_lines json floor limit (line ∷ lines) st)
  unfolding scan_lines
  scan_round-moved floor limit p line lines st skipped rec e c =
      rw (e, scan_lines) ((rec (skip_line json (st.position + length line) st) c))
  scan_round-moved floor limit p line lines st full rec e c =
      rw (e, scan_lines) ((refl, refl, refl))
  scan_round-moved floor limit p line lines st (taken value seq size) rec e c =
      rw (e, scan_lines) ((rw c (refl, refl, refl)))

  scan_lines-moved :
      (floor limit p : ℕ) (lines : List Bytes) (st : Scan json)
      → st.entries ≡ []
      → SamePage
          (scan_lines json floor limit lines (moved p st))
          (scan_lines json floor limit lines st)
  unfolding scan_lines
  scan_lines-moved floor limit p [] st c = (refl, refl, refl)
  scan_lines-moved floor limit p (line ∷ lines) st c =
      scan_round-moved floor limit p line lines st (round json line floor st)
        (scan_lines-moved floor limit p lines) refl c

  -- The same entries and the same position to go on from.
  abbrev pub Continues : Page json → Page json → Type 0
  Continues a b =
      (a.entries ≡ b.entries) × (a.next_seq ≡ b.next_seq) × (a.next_offset ≡ b.next_offset)

  pub scan_forward-seek :
      (before file : Bytes) (floor limit : ℕ)
      → IsWhole before
      → any_new json floor (raw_lines before) ≡ false
      → Continues
          (scan_forward json (before ++ file) (length before) floor limit)
          (scan_forward json (before ++ file) 0 floor limit)
  unfolding scan_forward
  scan_forward-seek before file floor limit w old =
      let n = length before in
      let start = start_scan json 0 floor in
      let passed : 0 + length (flatten (raw_lines before)) ≡ n = rw w (omega arith) in
      rw (drop-append_self before file, raw_lines-append before file w)
        (rw (scan_lines-old floor limit 0 (raw_lines before) (raw_lines file) start old)
          (rw passed (scan_lines-moved floor limit n (raw_lines file) (at_offset n start) refl)))

  pub scan_forward-end :
      (file : Bytes) (offset floor limit : ℕ)
      → drop offset file ≡ []
      → Continues (end_page json floor offset) (scan_forward json file offset floor limit)
  unfolding scan_forward raw_lines scan_lines
  scan_forward-end file offset floor limit e = rw e (refl, refl, refl)

  pub Continues-trans : (a b c : Page json) → Continues a b → Continues b c → Continues a c
  Continues-trans a b c (p, q, r) (p', q', r') = (p ∙ p', q ∙ q', r ∙ r')
