-- ===== src/ScreenModel/Model/Drawing.antt =====
-- Which bytes come out of the screen model as normal output.
use mathlib.Core.List.{flatten}
use mobux.External.{Vt100}
use mobux.Prelude.{
  ℕ, ◌≡◌, refl, sym, ap, ◌∙◌, true, false, ◌&&◌, List, [], ◌∷◌, ◌++◌, leb, arith, inl, inr,
  append_assoc, append-nil, if◌then◌else◌, length, take, drop, take-append-drop, Bool-cases,
  Option-cases,
}
use mobux.ScreenModel.Lead.{Lead, parse_lead, held_tail_start}
use mobux.ScreenModel.Model.{
  ScreenModel, Drawn, normal, lines, push_normal, split_runs, starts_with_esc, cons_run,
  is_new_frame, alternate, snapshot, push_snapshot, before_run, run_through, finish_run, draw_run,
  draw_runs, feed,
}
use mobux.ScreenModel.Model.Held.{draw_runs-held}
use mobux.Utf8.{Bytes, Text}

-- The normal output among what was drawn.
abbrev pub normals : List Drawn → Bytes
normals [] = []
normals (normal bytes ∷ drawn) = bytes ++ normals drawn
normals (lines _ ∷ drawn) = normals drawn

normals-push_normal :
    (drawn : List Drawn) (run : Bytes) → normals (push_normal drawn run) ≡ normals drawn ++ run
unfolding push_normal
normals-push_normal [] run = append-nil run
normals-push_normal (normal bytes ∷ []) run = rw (append-nil (bytes ++ run), append-nil bytes) refl
normals-push_normal (lines ls ∷ []) run = append-nil run
normals-push_normal (normal b ∷ y ∷ drawn) run =
    rw (normals-push_normal (y ∷ drawn) run) (sym (append_assoc b (normals (y ∷ drawn)) run))
normals-push_normal (lines ls ∷ y ∷ drawn) run = normals-push_normal (y ∷ drawn) run

normals-append_lines :
    (drawn : List Drawn) (ls : List Text) → normals (drawn ++ lines ls ∷ []) ≡ normals drawn
normals-append_lines [] ls = refl
normals-append_lines (normal b ∷ drawn) ls = ap (λ d. b ++ d) (normals-append_lines drawn ls)
normals-append_lines (lines l ∷ drawn) ls = normals-append_lines drawn ls

flatten-cons_run : (b : ℕ) (runs : List Bytes) → flatten (cons_run b runs) ≡ b ∷ flatten runs
unfolding flatten
flatten-cons_run b [] = refl
flatten-cons_run b (run ∷ runs) = refl

flatten-split_runs : (bytes : Bytes) → flatten (split_runs bytes) ≡ bytes
unfolding split_runs flatten
flatten-split_runs [] = refl
flatten-split_runs (b ∷ rest) = elim (Bool-cases (starts_with_esc rest)) [
  | inl e ↦ rw e (ap (◌∷◌ b) (flatten-split_runs rest))
  | inr e ↦ rw e (flatten-cons_run b (split_runs rest) ∙ ap (◌∷◌ b) (flatten-split_runs rest))
]

module _ {vt : Vt100} where
  normals-push_snapshot :
      (m : ScreenModel vt) (drawn : List Drawn) → normals (push_snapshot m drawn).1 ≡ normals drawn
  unfolding push_snapshot
  normals-push_snapshot m drawn = elim (Option-cases (snapshot m).1) [
    | inl e ↦ rw (e, push_snapshot) refl
    | inr (ls, e) ↦ rw (e, push_snapshot) (normals-append_lines drawn ls)
  ]

  alternate-push_snapshot :
      (m : ScreenModel vt) (drawn : List Drawn) → alternate (push_snapshot m drawn).0 ≡ alternate m
  unfolding push_snapshot snapshot alternate
  alternate-push_snapshot m drawn = ground arith

  normals-before_run :
      (m : ScreenModel vt) (lead : Lead) (drawn : List Drawn)
      → normals (before_run m lead drawn).1 ≡ normals drawn
  unfolding before_run
  normals-before_run m lead drawn = elim (Bool-cases (alternate m && is_new_frame lead)) [
    | inl e ↦ rw (e, before_run) (normals-push_snapshot m drawn)
    | inr e ↦ rw (e, before_run) refl
  ]

  -- The bytes of a run that come out, by the model that it leaves.
  abbrev pub shown : ScreenModel vt → Bytes → Bytes
  shown m run = if alternate m then [] else run

  normals-finish_run :
      (m : ScreenModel vt) (run : Bytes) (drawn : List Drawn)
      → let (m', drawn') = finish_run m run drawn in normals drawn' ≡ normals drawn ++ shown m' run
  unfolding finish_run
  normals-finish_run m run drawn = elim (Bool-cases (alternate m)) [
    | inr e ↦ rw (e, finish_run) (rw e (normals-push_normal drawn run))
    | inl e ↦
        let dirtied : ScreenModel vt = record m { dirty = true } in
        let still : alternate dirtied ≡ true = unfold alternate in e in
        elim (Bool-cases (leb 500 (length m.scrolled_off))) [
          | inl full ↦
              rw (e, finish_run)
                (rw full (
                  rw (alternate-push_snapshot dirtied drawn, still)
                    (normals-push_snapshot dirtied drawn ∙ sym (append-nil (normals drawn)))))
          | inr room ↦ rw (e, finish_run) (rw room (rw still (sym (append-nil (normals drawn)))))
        ]
  ]

  normals-draw_run :
      (m : ScreenModel vt) (run : Bytes) (drawn : List Drawn)
      → let (m', drawn') = draw_run m run drawn in normals drawn' ≡ normals drawn ++ shown m' run
  unfolding draw_run
  normals-draw_run m run drawn =
      let lead = parse_lead run in
      let (m', drawn') = before_run m lead drawn in
      normals-finish_run (run_through m' lead (alternate m) run) run drawn'
      ∙ rw (normals-before_run m lead drawn) refl

  -- Every run leaves the terminal on the normal screen.
  abbrev pub StaysNormal : ScreenModel vt → List Bytes → List Drawn → Type 0
  StaysNormal m [] drawn = Unit
  StaysNormal m (run ∷ runs) drawn =
      let (m', drawn') = draw_run m run drawn in (alternate m' ≡ false) × StaysNormal m' runs drawn'

  normals-draw_runs :
      (m : ScreenModel vt) (runs : List Bytes) (drawn : List Drawn)
      → StaysNormal m runs drawn
      → normals (draw_runs m runs drawn).1 ≡ normals drawn ++ flatten runs
  unfolding draw_runs flatten
  normals-draw_runs m [] drawn s = sym (append-nil (normals drawn))
  normals-draw_runs m (run ∷ runs) drawn (n, s) =
      let (m', drawn') = draw_run m run drawn in
      normals-draw_runs m' runs drawn' s
      ∙ rw (normals-draw_run m run drawn, n) (append_assoc (normals drawn) run (flatten runs))

  -- While the terminal stays on the normal screen, a call of `feed` gives as normal output the bytes that
  -- were held back before it and those that it is fed, in order and unchanged, except for the tail that it
  -- holds back now.
  pub feed-normals :
      (m : ScreenModel vt) (bytes : Bytes)
      → (let buf = m.held ++ bytes in
          let keep = held_tail_start buf in
          StaysNormal (record m { held = drop keep buf }) (split_runs (take keep buf)) [])
      → let (m', drawn) = feed m bytes in normals drawn ++ m'.held ≡ m.held ++ bytes
  unfolding feed
  feed-normals m bytes s =
      let buf = m.held ++ bytes in
      let keep = held_tail_start buf in
      let m' : ScreenModel vt = record m { held = drop keep buf } in
      let runs = split_runs (take keep buf) in
      rw (normals-draw_runs m' runs [] s, draw_runs-held m' runs [])
        (rw (flatten-split_runs (take keep buf)) (take-append-drop keep buf))
