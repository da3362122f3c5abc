-- ===== src/SessionHistory/Segmenter/Absorb.antt =====
-- Bytes that are recorded in two pieces leave the same as in one: the same raw entries are cut off, and
-- an open command's output is cut at the same byte.
use mobux.External.{Vte, Vt100, IsStreaming}
use mobux.Prelude.{
  ℕ, zero, suc, ◌-◌, ◌≤◌, ◌<◌, min, ◌≡◌, refl, sym, ◌∙◌, ap, inl, inr, [], ◌∷◌, ◌++◌, Option, none,
  some, true, false, arith, ltb, leb, leb→le, length, take, drop, length-append, length-take,
  length-drop, take_all, take-append_le, drop-append_le, append_assoc, append-nil, Bool-cases,
  Option-cases, if◌then◌else◌,
}
use mobux.SessionHistory.Entry.{PendingEntry, OpenCommand}
use mobux.SessionHistory.Segmenter.Pieces.{
  raw_flush_threshold, max_command_output_bytes, Events, drain_raw, extend_output,
}
use mobux.SessionHistory.Segmenter.{Segmenter, ◌then◌, record_bytes, consume_bytes}
use mobux.TerminalCursor.{CursorModel, feed}
use mobux.TerminalCursor.CommandLine.{perform_all-append}
use mobux.Utf8.{Bytes, from_utf8_lossy}

take-append : (n : ℕ) (xs ys : Bytes) → take n (xs ++ ys) ≡ take n xs ++ take (n - length xs) ys
take-append zero xs ys = ground arith
take-append (suc n) [] ys = ground arith
take-append (suc n) (x ∷ xs) ys = ground (arith, take-append n xs ys)

take-min : (n : ℕ) (xs : Bytes) → take (min n (length xs)) xs ≡ take n xs
take-min n xs = elim (Bool-cases (leb n (length xs))) [
  | inl short ↦ ap (λ k. take k xs) (ground arith)
  | inr long ↦
      let whole : min n (length xs) ≡ length xs = ground arith in
      rw whole (take_all (length xs) xs (omega arith) ∙ sym (take_all n xs (ground arith)))
]

-- The output takes what there is room for.
extend_output_lem :
    (bytes : Bytes) (o : OpenCommand)
    → extend_output bytes o
      ≡ record o { output = o.output ++ take (max_command_output_bytes - length o.output) bytes }
unfolding extend_output
extend_output_lem bytes o = elim (Bool-cases (ltb (length o.output) max_command_output_bytes)) [
  | inl free ↦ rw free (
      ap (λ piece. record o { output = o.output ++ piece })
        (take-min (max_command_output_bytes - length o.output) bytes))
  | inr full ↦
      let none_left : max_command_output_bytes - length o.output ≡ 0 = ground arith in
      rw full (
        ap (λ piece. record o { output = piece })
          (sym (append-nil o.output) ∙ ap (λ n. o.output ++ take n bytes) (sym none_left)))
]

extend_output-append :
    (x y : Bytes) (o : OpenCommand) → extend_output (x ++ y) o ≡ extend_output y (extend_output x o)
extend_output-append x y o =
    let room = max_command_output_bytes - length o.output in
    let left : max_command_output_bytes - length (o.output ++ take room x) ≡ room - length x =
      omega (arith, length-append o.output (take room x), length-take room x) in
    extend_output_lem (x ++ y) o
    ∙ ap (λ piece. record o { output = piece })
        (ap (◌++◌ o.output) (take-append room x y)
          ∙ sym (append_assoc o.output (take room x) (take (room - length x) y))
          ∙ ap (λ n. (o.output ++ take room x) ++ take n y) (sym left))
    ∙ sym (
        ap (extend_output y) (extend_output_lem x o)
        ∙ extend_output_lem y (record o { output = o.output ++ take room x }))

drain_raw_fuel :
    (size now_ms f g : ℕ) (z : Bytes)
    → 0 < size
    → length z ≤ f
    → length z ≤ g
    → drain_raw size f now_ms z ≡ drain_raw size g now_ms z
unfolding drain_raw
drain_raw_fuel size now_ms zero zero z p h k = refl
drain_raw_fuel size now_ms zero (suc g) z p h k =
    let small : leb size (length z) ≡ false = ground arith in rw (small, drain_raw) refl
drain_raw_fuel size now_ms (suc f) zero z p h k =
    let small : leb size (length z) ≡ false = ground arith in rw (small, drain_raw) refl
drain_raw_fuel size now_ms (suc f) (suc g) z p h k = elim (Bool-cases (leb size (length z))) [
  | inl more ↦
      let le = leb→le size (length z) more in
      let rest =
        drain_raw_fuel size now_ms f g (drop size z) p (omega (arith, length-drop size z))
          (omega (arith, length-drop size z)) in
      rw (more, drain_raw) (rw rest refl)
  | inr done ↦ rw (done, drain_raw) refl
]

module _ (size now_ms f : ℕ) (z : Bytes) where
  drain_raw_more :
      leb size (length z) ≡ true
      → drain_raw size (suc f) now_ms z ≡ (
        (drain_raw size f now_ms (drop size z)).0,
        PendingEntry.raw (from_utf8_lossy (take size z)) now_ms
            ∷ (drain_raw size f now_ms (drop size z)).1,
      )
  unfolding drain_raw
  drain_raw_more e = rw (e, drain_raw) refl

  drain_raw_done : leb size (length z) ≡ false → drain_raw size (suc f) now_ms z ≡ (z, [])
  unfolding drain_raw
  drain_raw_done e = rw (e, drain_raw) refl

-- Draining may stop between any two bytes: what is left is drained again in front of the rest.
drain_raw-append :
    (size now_ms f g : ℕ) (z y : Bytes)
    → 0 < size
    → length (z ++ y) ≤ f
    → length ((drain_raw size f now_ms z).0 ++ y) ≤ g
    → let (r, e) = drain_raw size f now_ms z in
      let (r', e') = drain_raw size g now_ms (r ++ y) in
      drain_raw size f now_ms (z ++ y) ≡ (r', e ++ e')
drain_raw-append size now_ms zero g z y p h k =
    unfold drain_raw in rw (drain_raw_fuel size now_ms zero g (z ++ y) p h k) refl
drain_raw-append size now_ms (suc f) g z y p h k = elim (Bool-cases (leb size (length z))) [
  | inl more ↦
      let le = leb→le size (length z) more in
      let more' : leb size (length (z ++ y)) ≡ true = ground (arith, length-append z y) in
      let rest =
        drain_raw-append size now_ms f g (drop size z) y p
          (omega (arith, length-append (drop size z) y, length-append z y, length-drop size z))
          (rw (drain_raw_more size now_ms f z more) at k) in
      rw (drain_raw_more size now_ms f z more) (
        rw (drain_raw_more size now_ms f (z ++ y) more')
          (rw (drop-append_le size z y le, take-append_le size z y le) (rw rest refl)))
  | inr done ↦
      let k' = rw (drain_raw_done size now_ms f z done) at k in
      rw (drain_raw_done size now_ms f z done)
        (rw (drain_raw_fuel size now_ms (suc f) g (z ++ y) p h k') refl)
]

-- `record_bytes`, on the two fields that it reads and writes.
absorb : Bytes → ℕ → Option OpenCommand → Bytes → Option OpenCommand × Bytes × Events
absorb bytes now_ms (some o) pending = (some (extend_output bytes o), pending, [])
absorb bytes now_ms none pending =
    let (pending', events) =
      drain_raw raw_flush_threshold (length (pending ++ bytes)) now_ms (pending ++ bytes) in
    (none, pending', events)

absorb-append :
    (x y : Bytes) (now_ms : ℕ) (o : Option OpenCommand) (pending : Bytes)
    → let (o1, p1, e1) = absorb x now_ms o pending in
      let (o2, p2, e2) = absorb y now_ms o1 p1 in
      absorb (x ++ y) now_ms o pending ≡ (o2, p2, e1 ++ e2)
unfolding absorb
absorb-append x y now_ms (some o) pending = rw (extend_output-append x y o) refl
absorb-append x y now_ms none pending =
    let z = pending ++ x in
    let f = length (z ++ y) in
    let size = raw_flush_threshold in
    let first = drain_raw size (length z) now_ms z in
    let same =
      drain_raw_fuel size now_ms f (length z) z (omega arith) (omega (arith, length-append z y))
        (omega arith) in
    let both =
      drain_raw-append size now_ms f (length (first.0 ++ y)) z y (omega arith) (omega arith)
        (rw same (omega arith)) in
    rw (← append_assoc pending x y) (rw (rw same at both) refl)

module _ {vte : Vte} (streaming : IsStreaming vte) where
  feed-append : (m : CursorModel vte) (x y : Bytes) → feed m (x ++ y) ≡ feed (feed m x) y
  unfolding feed
  feed-append m x y = rw (streaming.split m.parser x y) (
      ap (λ state. record { parser = (vte.advance (vte.advance m.parser x).0 y).0; state = state })
        (perform_all-append m.state (vte.advance m.parser x).1
          (vte.advance (vte.advance m.parser x).0 y).1))

module _ {vte : Vte} {vt : Vt100} where
  record_bytes-absorb :
      (bytes : Bytes) (now_ms : ℕ) (s : Segmenter vte vt)
      → let (o, pending, events) = absorb bytes now_ms s.open_command s.pending in
        record_bytes bytes now_ms s ≡ (record s { open_command = o; pending = pending }, events)
  unfolding record_bytes absorb
  record_bytes-absorb bytes now_ms s = elim (Option-cases s.open_command) [
    | inr (o, e) ↦ rw (e, record_bytes, absorb) refl
    | inl e ↦
        let (pending, events) =
          drain_raw raw_flush_threshold (length (s.pending ++ bytes)) now_ms (s.pending ++ bytes) in
        rw (e, record_bytes, absorb)
          (ap (λ o. (record s { open_command = o; pending = pending }, events)) e)
  ]

  -- Without a screen model, the bytes that are no marker go to the cursor and to `record_bytes`.
  consume_bytes_client :
      (bytes : Bytes) (now_ms : ℕ) (s : Segmenter vte vt)
      → s.screen ≡ none
      → let (o, pending, events) = absorb bytes now_ms s.open_command s.pending in
        consume_bytes bytes now_ms s ≡ (
          record s {
            cursor = feed s.cursor bytes;
            screen = none;
            open_command = o;
            pending = pending;
          },
          events,
        )
  unfolding consume_bytes
  consume_bytes_client bytes now_ms s c =
      let s' = record s { cursor = feed s.cursor bytes; screen = none } in
      rw (c, consume_bytes)
        (rw (record_bytes-absorb bytes now_ms s') (
          ap
            (λ e. (
              record s' {
                open_command = (absorb bytes now_ms s.open_command s.pending).0;
                pending = (absorb bytes now_ms s.open_command s.pending).1;
              },
              e,
            ))
            (append-nil (absorb bytes now_ms s.open_command s.pending).2)))

  module _ (streaming : IsStreaming vte) where
    pub consume_bytes-append :
        (x y : Bytes) (now_ms : ℕ) (s : Segmenter vte vt)
        → s.screen ≡ none
        → consume_bytes (x ++ y) now_ms s ≡ (consume_bytes x now_ms then consume_bytes y now_ms) s
    consume_bytes-append x y now_ms s c =
        let (o, pending, events) = absorb x now_ms s.open_command s.pending in
        let s' = record s {
          cursor = feed s.cursor x;
          screen = none;
          open_command = o;
          pending = pending;
        } in
        rw (consume_bytes_client x now_ms s c) (
          rw (consume_bytes_client y now_ms s' refl) (
            rw (consume_bytes_client (x ++ y) now_ms s c) (
              rw
                (
                  feed-append streaming s.cursor x y,
                  absorb-append x y now_ms s.open_command s.pending,
                )
                refl)))
