-- ===== src/Download/Destinations/Writes.antt =====
-- The bytes that `send_to_writer` (babel/src/download_job.rs) has written, and where.
use native.Mathlib.Decide.{dec_le, dec_lt}
use blockvisor.Archive.{FileLocation}
use blockvisor.Archive.Bytes.{range, locations, total, range-append}
use blockvisor.Common.Outcome.{ok, err}
use blockvisor.Download.{size_mismatch, ChunkData, file_part}
use blockvisor.Download.Destinations.{send_loop, send_to_writer}
use blockvisor.Common.{
  ℕ, zero, suc, ◌+◌, ◌-◌, ◌≤◌, ◌<◌, ◌≡◌, refl, sym, ap, ◌∙◌, List, [], ◌∷◌, ◌++◌, append-nil,
  append_assoc, arith, if◌then◌else◌, length, take, drop, length-take, length-drop, take-length,
  is_empty, take-append-drop, drop-length,
}
use blockvisor.Download.Destinations.Sent.{where_written, Sent, Delivers}

-- A destination that is filled.
whole_part :
    (fuel : ℕ) (buffer : List ℕ) (d : FileLocation) (ds : List FileLocation)
    → d.size ≤ length buffer
    → send_loop (suc fuel) buffer (d ∷ ds) ≡ (
      file_part d.path d.pos (take d.size buffer) ∷ (send_loop fuel (drop d.size buffer) ds).0,
      (send_loop fuel (drop d.size buffer) ds).1,
    )
unfolding send_loop
whole_part fuel buffer d ds h = ground arith

no_part :
    (fuel : ℕ) (d : FileLocation) (ds : List FileLocation)
    → 0 < d.size
    → send_loop (suc fuel) [] (d ∷ ds) ≡ ([], ok (d ∷ ds))
unfolding send_loop
no_part fuel d ds h = ground arith

-- A destination that takes the whole buffer and has room left.
cut_part :
    (fuel : ℕ) (buffer : List ℕ) (d : FileLocation) (ds : List FileLocation)
    → 0 < length buffer
    → length buffer < d.size
    → send_loop (suc (suc fuel)) buffer (d ∷ ds) ≡ (
      file_part d.path d.pos buffer ∷ [],
      ok (
          record { path = d.path; pos = d.pos + length buffer; size = d.size - length buffer }
          ∷ ds),
    )
unfolding send_loop
cut_part fuel buffer d ds some_bytes larger = ground (arith, take-length buffer, drop-length buffer)

no_destination :
    (fuel : ℕ) (buffer : List ℕ)
    → send_loop (suc fuel) buffer [] ≡ ([], if is_empty buffer then ok [] else err size_mismatch)
unfolding send_loop
no_destination fuel buffer = refl

whole-Sent :
    (buffer : List ℕ) (d : FileLocation) (ds left : List FileLocation) (sent : List ChunkData)
    → d.size ≤ length buffer
    → Sent (drop d.size buffer) ds left sent
    → Sent buffer (d ∷ ds) left (file_part d.path d.pos (take d.size buffer) ∷ sent)
whole-Sent buffer d ds left sent h t =
    let size : length (take d.size buffer) ≡ d.size = omega (arith, length-take d.size buffer) in
    record {
      places = rw size (
          append_assoc (range d.path d.pos d.size) (where_written sent) (locations left)
          ∙ ap (◌++◌ (range d.path d.pos d.size)) t.places);
      bytes = ap (◌++◌ (take d.size buffer)) t.bytes ∙ take-append-drop d.size buffer;
    }

cut-Sent :
    (buffer : List ℕ) (d : FileLocation) (ds : List FileLocation)
    → length buffer < d.size
    → Sent buffer
        (d ∷ ds)
        (record { path = d.path; pos = d.pos + length buffer; size = d.size - length buffer } ∷ ds)
        (file_part d.path d.pos buffer ∷ [])
cut-Sent buffer d ds h = record {
  places = rw append-nil (
      sym (
        append_assoc (range d.path d.pos (length buffer))
          (range d.path (d.pos + length buffer) (d.size - length buffer)) (locations ds))
      ∙ ap (λ r. r ++ locations ds)
          (range-append d.path d.pos (length buffer) (d.size - length buffer)
            (d.pos + length buffer) d.size refl (omega arith)));
  bytes = append-nil buffer;
}

send_loop-Sent :
    (fuel : ℕ) (buffer : List ℕ) (destination : List FileLocation)
    → length buffer ≤ total destination
    → length destination < fuel
    → Delivers (send_loop (suc fuel) buffer destination) buffer destination
send_loop-Sent zero buffer destination fits enough = absurd (omega arith)
send_loop-Sent (suc fuel) [] [] fits enough =
    ([], [], no_destination (suc fuel) [], record { places = refl; bytes = refl })
send_loop-Sent (suc fuel) (byte ∷ bytes) [] fits enough = absurd (omega arith)
send_loop-Sent (suc fuel) [] (d ∷ ds) fits enough =
    let empty : List ℕ = [] in
    elim (dec_lt 0 d.size) [
      | yes some_room ↦
          ([], d ∷ ds, no_part (suc fuel) d ds some_room, record { places = refl; bytes = refl })
      | no no_room ↦
          let no_size : d.size ≡ 0 = omega arith in
          let left_over : length (drop d.size empty) ≤ total ds =
            omega (arith, length-drop d.size empty) in
          let (sent, left, run, t) =
            send_loop-Sent fuel (drop d.size empty) ds left_over (omega arith) in
          (
            file_part d.path d.pos (take d.size empty) ∷ sent,
            left,
            whole_part (suc fuel) empty d ds (omega arith) ∙ (rw run),
            whole-Sent empty d ds left sent (omega arith) t,
          )
    ]
send_loop-Sent (suc fuel) (byte ∷ bytes) (d ∷ ds) fits enough =
    elim (dec_le d.size (length (byte ∷ bytes))) [
      | yes filled ↦
          let buffer : List ℕ = byte ∷ bytes in
          let left_over : length (drop d.size buffer) ≤ total ds =
            omega (arith, length-drop d.size buffer) in
          let (sent, left, run, t) =
            send_loop-Sent fuel (drop d.size buffer) ds left_over (omega arith) in
          (
            file_part d.path d.pos (take d.size buffer) ∷ sent,
            left,
            whole_part (suc fuel) buffer d ds filled ∙ (rw run),
            whole-Sent buffer d ds left sent filled t,
          )
      | no larger ↦ (
        file_part d.path d.pos (byte ∷ bytes) ∷ [],
        record {
          path = d.path;
          pos = d.pos + length (byte ∷ bytes);
          size = d.size - length (byte ∷ bytes);
        }
            ∷ ds,
        cut_part fuel (byte ∷ bytes) d ds (omega arith) (omega arith),
        cut-Sent (byte ∷ bytes) d ds (omega arith),
      )
    ]

send_loop-mismatch :
    (fuel : ℕ) (buffer : List ℕ) (destination : List FileLocation)
    → total destination < length buffer
    → length destination ≤ fuel
    → (send_loop (suc fuel) buffer destination).1 ≡ err size_mismatch
send_loop-mismatch fuel [] destination longer enough = absurd (omega arith)
send_loop-mismatch fuel (byte ∷ bytes) [] longer enough = rw (no_destination fuel (byte ∷ bytes))
send_loop-mismatch zero (byte ∷ bytes) (d ∷ ds) longer enough = absurd (omega arith)
send_loop-mismatch (suc fuel) (byte ∷ bytes) (d ∷ ds) longer enough =
    let buffer : List ℕ = byte ∷ bytes in
    rw (whole_part (suc fuel) buffer d ds (omega arith)) (
      send_loop-mismatch fuel (drop d.size buffer) ds (omega (arith, length-drop d.size buffer))
        (omega arith))

-- A buffer that fits into the destinations is sent: its bytes go, in order, to the first of the
-- destinations' places, and the places that follow are left for the next buffer.
pub send_to_writer-Sent :
    (buffer : List ℕ) (destination : List FileLocation)
    → length buffer ≤ total destination
    → Delivers (send_to_writer buffer destination) buffer destination
unfolding send_to_writer
send_to_writer-Sent buffer destination fits =
    send_loop-Sent (suc (length destination)) buffer destination fits (omega arith)

-- A buffer that does not fit is an error.
pub send_to_writer-mismatch :
    (buffer : List ℕ) (destination : List FileLocation)
    → total destination < length buffer
    → (send_to_writer buffer destination).1 ≡ err size_mismatch
unfolding send_to_writer
send_to_writer-mismatch buffer destination longer =
    send_loop-mismatch (suc (length destination)) buffer destination longer (omega arith)
