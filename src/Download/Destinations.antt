-- ===== src/Download/Destinations.antt =====
-- `DestinationsIter` and `send_to_writer` of babel/src/download_job.rs. The reversed vector, which is
-- taken from its end, is the list of the destinations in their order.
use blockvisor.Archive.{FileLocation}
use blockvisor.Common.Outcome.{Outcome, ok, err, out_of_fuel}
use blockvisor.Download.{DownloadError, corrupted_manifest, size_mismatch, file_part, Sends}
use blockvisor.Common.{
  ℕ, zero, suc, ◌+◌, ◌-◌, Option, none, some, List, [], ◌∷◌, ltb, leb, if◌then◌else◌, length, take,
  drop, is_empty,
}
pub mod Sent
pub mod Writes

-- The report to the engine where the manifest is corrupted is left out.
unfoldable pub new : List FileLocation → Outcome DownloadError (List FileLocation)
new [] = err corrupted_manifest
new (d ∷ ds) = ok (d ∷ ds)

-- `next`: the destination of what comes next, if there is one, and what is left of the iterator.
pub next : List FileLocation → ℕ → Option FileLocation × List FileLocation
next [] bytes = (none, [])
next (current ∷ rest) bytes =
    if leb current.size bytes
    then (some current, rest)
    else if ltb 0 bytes
    then (
      some (record { path = current.path; pos = current.pos; size = bytes }),
      record { path = current.path; pos = current.pos + bytes; size = current.size - bytes } ∷ rest,
    )
    else (none, current ∷ rest)

-- The loop of `send_to_writer`, on fuel: each round but the last two uses a destination up.
send_loop : ℕ → List ℕ → List FileLocation → Sends (List FileLocation)
unfolding next
send_loop zero buffer destination = ([], out_of_fuel)
send_loop (suc fuel) buffer destination =
    let (found, destination') = next destination (length buffer) in
    elim found [
      | none ↦ ([], if is_empty buffer then ok destination' else err size_mismatch)
      | some location ↦
          let (sent, result) = send_loop fuel (drop location.size buffer) destination' in
          (file_part location.path location.pos (take location.size buffer) ∷ sent, result)
    ]

unfoldable pub send_to_writer : List ℕ → List FileLocation → Sends (List FileLocation)
unfolding send_loop
send_to_writer buffer destination = send_loop (suc (suc (length destination))) buffer destination
