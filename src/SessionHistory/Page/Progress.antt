-- ===== src/SessionHistory/Page/Progress.antt =====
-- What a page that is read forward holds: never too much, and always something new where there is any.
use mobux.External.{Json}
use mobux.Prelude.{
  ℕ, ◌+◌, ◌≤◌, ◌<◌, max, ◌≡◌, refl, ◌⊎◌, inl, inr, Bool, true, false, ◌||◌, List, [], ◌∷◌, ◌++◌,
  none, some, arith, ltb, leb, length, length-append, drop, is_empty, Bool-cases, Option-cases,
}
use mobux.SessionHistory.Page.{
  Scan, Round, skipped, full, taken, round, admit, scan_lines, scan_forward, skip_line, take_entry,
  start_scan, raw_lines, cap_output_for_wire, max_page_bytes, or_zero,
}
use mobux.SessionHistory.Store.{seq_of}
use mobux.Utf8.{Bytes}

empty-length : {A : Type 0} (xs : List A) → is_empty xs ≡ true → length xs ≡ 0
empty-length [] e = refl
empty-length (x ∷ xs) e = ground arith

nonempty-length : {A : Type 0} (xs : List A) → is_empty xs ≡ false → 1 ≤ length xs
nonempty-length [] e = ground arith
nonempty-length (x ∷ xs) e = omega arith

module _ (json : Json) where
  -- The bytes of the entries' JSON.
  abbrev pub total : List json.Value → ℕ
  total [] = 0
  total (v ∷ vs) = length (json.to_string v) + total vs

  total-append_one :
      (vs : List json.Value) (v : json.Value)
      → total (vs ++ v ∷ []) ≡ total vs + length (json.to_string v)
  total-append_one [] v = omega arith
  total-append_one (x ∷ vs) v = omega (arith, total-append_one vs v)

  -- At most `limit` entries, or one, and at most 512 KiB of JSON, or one entry.
  abbrev pub Fits : ℕ → List json.Value → Type 0
  Fits limit entries =
      (length entries ≤ max 1 limit) × ((total entries ≤ max_page_bytes) ⊎ (length entries ≤ 1))

  -- The page goes on: it has room for another entry.
  record Going (limit : ℕ) (st : Scan json) : Type 0 where
    fits : Fits limit st.entries
    counted : st.used ≡ total st.entries
    room : length st.entries < max 1 limit

  -- A line with an entry above the floor.
  abbrev pub is_new : ℕ → Bytes → Bool
  is_new floor line = elim (json.from_slice line) [
    | none ↦ false
    | some value ↦ ltb floor (or_zero json (seq_of json value))
  ]

  -- A round passes over what is not new, and takes an entry with its size where it fits.
  abbrev Sound : ℕ → Bytes → Scan json → Round json → Type 0
  Sound floor line st skipped = is_new floor line ≡ false
  Sound floor line st full = 1 ≤ length st.entries
  Sound floor line st (taken value seq size) =
      (size ≡ length (json.to_string value))
      × ((length st.entries ≡ 0) ⊎ (st.used + size ≤ max_page_bytes))

  admit-Sound :
      (floor : ℕ) (line : Bytes) (value : json.Value) (seq : ℕ) (st : Scan json)
      → Sound floor line st (admit json value seq st)
  unfolding admit
  admit-Sound floor line value seq st =
      let size = length (json.to_string value) in
      elim (Bool-cases (is_empty st.entries)) [
        | inl e ↦ rw e (refl, inl (empty-length st.entries e))
        | inr e ↦ elim (Bool-cases (ltb max_page_bytes (st.used + size))) [
          | inl over ↦ rw (e, over) (nonempty-length st.entries e)
          | inr under ↦ rw (e, under) (refl, inr (ground arith))
        ]
      ]

  round-Sound :
      (floor : ℕ) (line : Bytes) (st : Scan json) → Sound floor line st (round json line floor st)
  unfolding round
  round-Sound floor line st = elim (Option-cases (json.from_slice line)) [
    | inl p ↦ let old : is_new floor line ≡ false = rw (p, is_new) refl in rw (p, round) old
    | inr (v, p) ↦ elim (Bool-cases (leb (or_zero json (seq_of json v)) floor)) [
      | inl old ↦
          let not_new : is_new floor line ≡ false = rw (p, is_new) (ground arith) in
          rw (p, round) (rw old not_new)
      | inr new ↦
          rw (p, round)
            (rw new (
              admit-Sound floor line (cap_output_for_wire json v) (or_zero json (seq_of json v))
                st))
    ]
  ]

  taken-Fits :
      (limit : ℕ) (st : Scan json) (value : json.Value) (seq size end : ℕ)
      → Going limit st
      → size ≡ length (json.to_string value)
      → (length st.entries ≡ 0) ⊎ (st.used + size ≤ max_page_bytes)
      → let st' = take_entry json value seq size end st in
        Fits limit st'.entries × (st'.used ≡ total st'.entries)
  taken-Fits limit st value seq size end g e f =
      let n = length-append st.entries (value ∷ []) in
      let b = total-append_one st.entries value in
      let counted = g.counted in
      let room = g.room in
      elim f [
        | inl none_yet ↦ ((omega arith, inr (omega arith)), omega arith)
        | inr fits ↦ ((omega arith, inl (omega arith)), omega arith)
      ]

  -- Holds of what the loop leaves, from every state in which `Start` holds.
  abbrev Leaves : (Scan json → Type 0) → (Scan json → Type 0) → ℕ → ℕ → List Bytes → Type 0
  Leaves Start Good floor limit lines =
      (st : Scan json) → Start st → Good (scan_lines json floor limit lines st)

  scan_round-Fits :
      (floor limit : ℕ) (line : Bytes) (lines : List Bytes) (st : Scan json) (r : Round json)
      → Leaves (Going limit) (λ st. Fits limit st.entries) floor limit lines
      → round json line floor st ≡ r
      → Sound floor line st r
      → Going limit st
      → Fits limit (scan_lines json floor limit (line ∷ lines) st).entries
  unfolding scan_lines
  scan_round-Fits floor limit line lines st skipped rec e s g =
      rw (e, scan_lines)
        (rec (skip_line json (st.position + length line) st)
          (record { fits = g.fits; counted = g.counted; room = g.room }))
  scan_round-Fits floor limit line lines st full rec e s g = rw (e, scan_lines) g.fits
  scan_round-Fits floor limit line lines st (taken value seq size) rec e (p, f) g =
      let end = st.position + length line in
      let st' = take_entry json value seq size end st in
      let (fits, counted) = taken-Fits limit st value seq size end g p f in
      elim (Bool-cases (leb limit (length st'.entries))) [
        | inl last ↦ rw (e, scan_lines) (rw last fits)
        | inr more ↦
            rw (e, scan_lines)
              (rw more (rec st' (record { fits = fits; counted = counted; room = ground arith })))
      ]

  scan_lines-Fits :
      (floor limit : ℕ) (lines : List Bytes)
      → Leaves (Going limit) (λ st. Fits limit st.entries) floor limit lines
  unfolding scan_lines
  scan_lines-Fits floor limit [] st g = g.fits
  scan_lines-Fits floor limit (line ∷ lines) st g =
      scan_round-Fits floor limit line lines st (round json line floor st)
        (scan_lines-Fits floor limit lines) refl (round-Sound floor line st) g

  -- A page holds at most `limit` entries and at most 512 KiB of JSON, but for the first entry, which it
  -- takes whatever its size and the limit.
  pub scan_forward-Fits :
      (file : Bytes) (from_offset floor limit : ℕ)
      → Fits limit (scan_forward json file from_offset floor limit).entries
  unfolding scan_forward
  scan_forward-Fits file from_offset floor limit =
      scan_lines-Fits floor limit (raw_lines (drop from_offset file))
        (start_scan json from_offset floor)
        (record { fits = (omega arith, inr (omega arith)); counted = refl; room = omega arith })

  scan_round-keeps :
      (floor limit : ℕ) (line : Bytes) (lines : List Bytes) (st : Scan json) (r : Round json)
      → Leaves (λ st. 1 ≤ length st.entries) (λ st. 1 ≤ length st.entries) floor limit lines
      → round json line floor st ≡ r
      → 1 ≤ length st.entries
      → 1 ≤ length (scan_lines json floor limit (line ∷ lines) st).entries
  unfolding scan_lines
  scan_round-keeps floor limit line lines st skipped rec e h =
      rw (e, scan_lines) (rec (skip_line json (st.position + length line) st) h)
  scan_round-keeps floor limit line lines st full rec e h = rw (e, scan_lines) h
  scan_round-keeps floor limit line lines st (taken value seq size) rec e h =
      let st' = take_entry json value seq size (st.position + length line) st in
      let n = length-append st.entries (value ∷ []) in
      elim (Bool-cases (leb limit (length st'.entries))) [
        | inl last ↦ rw (e, scan_lines) (rw last (omega arith))
        | inr more ↦ rw (e, scan_lines) (rw more (rec st' (omega arith)))
      ]

  -- Entries that are on the page stay.
  scan_lines-keeps :
      (floor limit : ℕ) (lines : List Bytes) (st : Scan json)
      → 1 ≤ length st.entries
      → 1 ≤ length (scan_lines json floor limit lines st).entries
  unfolding scan_lines
  scan_lines-keeps floor limit [] st h = h
  scan_lines-keeps floor limit (line ∷ lines) st h =
      scan_round-keeps floor limit line lines st (round json line floor st)
        (scan_lines-keeps floor limit lines) refl h

  -- A line of the list is new.
  abbrev pub any_new : ℕ → List Bytes → Bool
  any_new floor [] = false
  any_new floor (line ∷ lines) = is_new floor line || any_new floor lines

  scan_round-progress :
      (floor limit : ℕ) (line : Bytes) (lines : List Bytes) (st : Scan json) (r : Round json)
      → Leaves (λ st. any_new floor lines ≡ true) (λ st. 1 ≤ length st.entries) floor limit lines
      → round json line floor st ≡ r
      → Sound floor line st r
      → any_new floor (line ∷ lines) ≡ true
      → 1 ≤ length (scan_lines json floor limit (line ∷ lines) st).entries
  unfolding scan_lines
  scan_round-progress floor limit line lines st skipped rec e s h =
      rw (e, scan_lines) (rec (skip_line json (st.position + length line) st) (rw s at h))
  scan_round-progress floor limit line lines st full rec e s h = rw (e, scan_lines) s
  scan_round-progress floor limit line lines st (taken value seq size) rec e s h =
      let st' = take_entry json value seq size (st.position + length line) st in
      let n = length-append st.entries (value ∷ []) in
      elim (Bool-cases (leb limit (length st'.entries))) [
        | inl last ↦ rw (e, scan_lines) (rw last (omega arith))
        | inr more ↦
            rw (e, scan_lines) (rw more (scan_lines-keeps floor limit lines st' (omega arith)))
      ]

  scan_lines-progress :
      (floor limit : ℕ) (lines : List Bytes) (st : Scan json)
      → any_new floor lines ≡ true
      → 1 ≤ length (scan_lines json floor limit lines st).entries
  unfolding scan_lines
  scan_lines-progress floor limit [] st h = ground arith
  scan_lines-progress floor limit (line ∷ lines) st h =
      scan_round-progress floor limit line lines st (round json line floor st)
        (scan_lines-progress floor limit lines) refl (round-Sound floor line st) h

  -- A page from an offset carries an entry at least wherever a complete line from there on holds an entry
  -- above the floor.
  pub scan_forward-progress :
      (file : Bytes) (from_offset floor limit : ℕ)
      → any_new floor (raw_lines (drop from_offset file)) ≡ true
      → 1 ≤ length (scan_forward json file from_offset floor limit).entries
  unfolding scan_forward
  scan_forward-progress file from_offset floor limit h =
      scan_lines-progress floor limit (raw_lines (drop from_offset file))
        (start_scan json from_offset floor) h
