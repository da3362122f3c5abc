-- ===== src/ReleaseAsset/Budget.antt =====
-- A download stays within its budget, and the digest is that of the file.
use mobux.Prelude.Result.{ok}
use mobux.Prelude.{
  ℕ, ◌+◌, ◌≤◌, List, [], ◌∷◌, ◌++◌, Option, none, some, ltb, leb, ◌-◌, length, length-append, ◌≡◌,
  refl, sym, ap, ◌∙◌, arith, inl, inr, Bool-cases,
}
use mathlib.Core.List.{append-nil, append_assoc, flatten}
use mobux.ReleaseAsset.Download.{
  Hasher, updates, IsSha256, Arrival, stalled, broken, chunk, Answer, silent, refused, answered,
  Transfer, write_chunk, download_loop, unwrap_or_zero, no_transfer, finish, nothing, download,
}
use mobux.ReleaseAsset.{download_progress_step, hex}
use mobux.Utf8.{Bytes, Text}

-- The bytes of a stream, if it comes to its end.
unfoldable pub received : List Arrival → Option Bytes
received [] = some []
received (stalled ∷ _) = none
received (broken e ∷ _) = none
received (chunk bytes ∷ stream) = elim (received stream) [
  | some rest ↦ some (bytes ++ rest)
  | none ↦ none
]

module _ (hasher : Hasher) (file read_timeout : Text) (budget total : ℕ) where
  write_chunk-out :
      (bytes : Bytes) (t : Transfer hasher)
      → (write_chunk hasher file read_timeout budget total bytes t).out ≡ t.out ++ bytes
  unfolding write_chunk
  write_chunk-out bytes t =
      elim (Bool-cases (leb download_progress_step (length (t.out ++ bytes) - t.reported))) [
        | inl e ↦ rw e refl
        | inr e ↦ rw e refl
      ]

  download_loop-within :
      (stream : List Arrival) (t : Transfer hasher)
      → length t.out ≤ budget
      → length (download_loop hasher file read_timeout budget total stream t).0.out ≤ budget
  unfolding download_loop
  download_loop-within [] t h = h
  download_loop-within (stalled ∷ _) t h = h
  download_loop-within (broken e ∷ _) t h = h
  download_loop-within (chunk bytes ∷ stream) t h =
      elim (Bool-cases (ltb budget (length t.out + length bytes))) [
        | inl e ↦ rw e h
        | inr e ↦ rw e (
            download_loop-within stream (write_chunk hasher file read_timeout budget total bytes t)
              (rw (write_chunk-out bytes t, length-append t.out bytes) (ground arith)))
      ]

  write_chunk-hashed :
      (bytes : Bytes) (t : Transfer hasher)
      → (write_chunk hasher file read_timeout budget total bytes t).hashed
        ≡ hasher.update bytes t.hashed
  unfolding write_chunk
  write_chunk-hashed bytes t =
      elim (Bool-cases (leb download_progress_step (length (t.out ++ bytes) - t.reported))) [
        | inl e ↦ rw e refl
        | inr e ↦ rw e refl
      ]

  -- Where nothing fails, the chunks of the stream are behind what was there, and the hasher has them.
  download_loop-chunks :
      (stream : List Arrival) (t : Transfer hasher)
      → (download_loop hasher file read_timeout budget total stream t).1 ≡ none
      → (chunks : List Bytes) × (received stream ≡ some (flatten chunks))
        × ((download_loop hasher file read_timeout budget total stream t).0.out
            ≡ t.out ++ flatten chunks)
        × ((download_loop hasher file read_timeout budget total stream t).0.hashed
            ≡ updates hasher chunks t.hashed)
  unfolding download_loop received updates flatten
  download_loop-chunks [] t h = ([], refl, sym (append-nil t.out), refl)
  download_loop-chunks (stalled ∷ _) t h = absurd (ground arith)
  download_loop-chunks (broken e ∷ _) t h = absurd (ground arith)
  download_loop-chunks (chunk bytes ∷ stream) t h =
      elim (Bool-cases (ltb budget (length t.out + length bytes))) [
        | inl e ↦ absurd (ground (arith, rw e at h))
        | inr e ↦
            let t' = write_chunk hasher file read_timeout budget total bytes t in
            let (chunks, all, out, hashed) = download_loop-chunks stream t' (rw e at h) in
            (
              bytes ∷ chunks,
              rw all refl,
              rw e (
                  out
                  ∙ ap (λ o. o ++ flatten chunks) (write_chunk-out bytes t)
                  ∙ append_assoc t.out bytes (flatten chunks)),
              rw e (hashed ∙ ap (updates hasher chunks) (write_chunk-hashed bytes t)),
            )
      ]

finish-part :
    (hasher : Hasher) (t : Transfer hasher) (failed : Option Text)
    → (finish hasher t failed).part ≡ some t.out
unfolding finish
finish-part hasher t none = refl
finish-part hasher t (some e) = refl

finish-digest :
    (hasher : Hasher) (t : Transfer hasher) (failed : Option Text) (d : Text)
    → (finish hasher t failed).digest ≡ ok d
    → (failed ≡ none) × (d ≡ hex (hasher.finalize t.hashed))
unfolding finish
finish-digest hasher t none d h = (refl, ground arith)
finish-digest hasher t (some e) d h = absurd (ground arith)

-- The part file never holds more than the budget, however the download ends.
pub download-within :
    (hasher : Hasher) (file read_timeout : Text) (budget : ℕ) (answer : Answer) (part : Bytes)
    → (download hasher file read_timeout budget answer).part ≡ some part
    → length part ≤ budget
unfolding download nothing
download-within hasher file read_timeout budget silent part h = absurd (ground arith)
download-within hasher file read_timeout budget (refused e) part h = absurd (ground arith)
download-within hasher file read_timeout budget (answered len stream) part h =
    let total = unwrap_or_zero len in
    let (t, failed) =
      download_loop hasher file read_timeout budget total stream (no_transfer hasher) in
    let within : length t.out ≤ budget =
      download_loop-within hasher file read_timeout budget total stream (no_transfer hasher)
        (omega arith) in
    elim (Bool-cases (ltb budget total)) [
      | inl e ↦ absurd (ground (arith, rw (e, download) at h))
      | inr e ↦
          let same : t.out ≡ part =
            ground (arith, sym (finish-part hasher t failed) ∙ rw (e, download) at h) in
          rw (← same) within
    ]

-- Where a download succeeds, the part file is the whole stream, within the budget, and the digest that
-- was computed chunk by chunk is that of the file, if the hasher computes SHA-256.
pub download-whole :
    (hasher : Hasher) (sha256 : Bytes → Bytes)
    → IsSha256 hasher sha256
    → (file read_timeout : Text) (budget : ℕ) (len : Option ℕ) (stream : List Arrival) (d : Text)
    → let got = download hasher file read_timeout budget (answered len stream) in
      got.digest ≡ ok d
      → (bytes : Bytes) × (received stream ≡ some bytes)
        × (got.part ≡ some bytes)
        × (length bytes ≤ budget)
        × (d ≡ hex (sha256 bytes))
unfolding download nothing
download-whole hasher sha256 law file read_timeout budget len stream d h =
    let total = unwrap_or_zero len in
    let (t, failed) =
      download_loop hasher file read_timeout budget total stream (no_transfer hasher) in
    let within : length t.out ≤ budget =
      download_loop-within hasher file read_timeout budget total stream (no_transfer hasher)
        (omega arith) in
    elim (Bool-cases (ltb budget total)) [
      | inl e ↦ absurd (ground (arith, rw (e, download) at h))
      | inr e ↦
          let (ended, digest) = finish-digest hasher t failed d (rw (e, download) at h) in
          let (chunks, all, out, hashed) =
            download_loop-chunks hasher file read_timeout budget total stream (no_transfer hasher)
              ended in
          (
            flatten chunks,
            all,
            rw (e, download) (finish-part hasher t failed ∙ ap some out),
            rw out at within,
            digest
                ∙ ap (λ s. hex (hasher.finalize s)) hashed
                ∙ ap hex (law.finalize-updates chunks),
          )
    ]
