-- ===== src/SessionHistory/Segmenter/Chunks/Front.antt =====
-- Plain bytes at the front of the scan buffer are consumed at once, also when the loop takes them with
-- what follows.
use mobux.External.{Vte, Vt100, IsStreaming}
use mobux.Prelude.{
  take-append_more, drop-append_more, ℕ, zero, suc, ◌+◌, ◌≤◌, ◌≡◌, refl, ◌∙◌, inl, inr, [], ◌∷◌,
  ◌++◌, none, some, arith, length, take, drop, length-append, Option-cases, if◌then◌else◌,
  take-append_self, drop-append_self, append_assoc, append-nil,
}
use mobux.SessionHistory.Segmenter.Absorb.{consume_bytes-append}
use mobux.SessionHistory.Segmenter.Local.{with_buf}
use mobux.SessionHistory.Segmenter.Pieces.{Events}
use mobux.SessionHistory.Segmenter.Rounds.{first_esc}
use mobux.SessionHistory.Segmenter.Whole.{run_loop}
use mobux.SessionHistory.Segmenter.{Segmenter, ◌then◌, consume_bytes}
use mobux.Utf8.{Bytes}
use mobux.SessionHistory.Segmenter.Chunks.Steps.{
  first_esc-append_none, run_skip, run_empty, run_plain,
}

module _ {vte : Vte} {vt : Vt100} (now_ms : ℕ) where
  module _ (streaming : IsStreaming vte) (x : Bytes) (s u : Segmenter vte vt) (es : Events)
      (client : s.screen ≡ none) (no_esc : first_esc x ≡ none) (some_left : 1 ≤ length x)
      (consumed : (q : Bytes) → consume_bytes x now_ms (with_buf s q) ≡ (with_buf u q, es)) where
    -- The right side of `run-plain_front`, behind now_ms the bytes `x`.
    abbrev After : Bytes → Type 0
    After r =
        run_loop now_ms (with_buf s (x ++ r))
        ≡ (consume_bytes x now_ms then run_loop now_ms) (with_buf s r)

    front-last : After []
    front-last =
        rw (consumed [], run_empty now_ms (with_buf u []) refl, append-nil es, append-nil x)
          (run_plain now_ms (with_buf s x) no_esc some_left ∙ consumed [])

    front-plain : (y : ℕ) (r : Bytes) → first_esc (y ∷ r) ≡ none → After (y ∷ r)
    front-plain y r q =
        let no_esc' : first_esc (x ++ y ∷ r) ≡ none =
          first_esc-append_none x (y ∷ r) no_esc ∙ rw q refl in
        run_plain now_ms (with_buf s (x ++ y ∷ r)) no_esc' (omega (arith, length-append x (y ∷ r)))
        ∙ consume_bytes-append streaming x (y ∷ r) now_ms (with_buf s []) client
        ∙ rw (consumed [], consumed (y ∷ r), run_plain now_ms (with_buf u (y ∷ r)) q (omega arith))
            refl

    front-esc : (r : Bytes) → first_esc r ≡ some 0 → After r
    front-esc r q =
        let at_x : first_esc (x ++ r) ≡ some (length x) =
          first_esc-append_none x r no_esc ∙ rw q (ground arith) in
        rw (run_skip now_ms (length x) (with_buf s (x ++ r)) at_x some_left)
          (rw (take-append_self x r, drop-append_self x r) refl)

    front-skip : (r : Bytes) (j : ℕ) → first_esc r ≡ some (suc j) → After r
    front-skip r j q =
        let at_j : first_esc (x ++ r) ≡ some (length x + suc j) =
          first_esc-append_none x r no_esc ∙ rw q (ground arith) in
        run_skip now_ms (length x + suc j) (with_buf s (x ++ r)) at_j (omega arith)
        ∙ rw (take-append_more (suc j) x r, drop-append_more (suc j) x r)
            (rw
              (consume_bytes-append streaming x (take (suc j) r) now_ms
                (with_buf s (drop (suc j) r)) client)
              (rw (consumed (drop (suc j) r), consumed r)
                (rw (run_skip now_ms (suc j) (with_buf u r) q (omega arith)) (
                  rw
                    (append_assoc es
                      (consume_bytes (take (suc j) r) now_ms (with_buf u (drop (suc j) r))).1)
                    refl))))

    pub front : (r : Bytes) → After r
    front [] = front-last
    front (y ∷ r) = elim (Option-cases (first_esc (y ∷ r))) [
      | inl q ↦ front-plain y r q
      | inr (zero, q) ↦ front-esc (y ∷ r) q
      | inr (suc j, q) ↦ front-skip (y ∷ r) j q
    ]
