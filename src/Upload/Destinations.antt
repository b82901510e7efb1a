-- ===== src/Upload/Destinations.antt =====
-- `build_destinations` of babel/src/upload_job.rs: the next files, up to the size of a chunk.
use mathlib.Core.Option
use blockvisor.Common.{
  ℕ, zero, suc, ◌+◌, ◌-◌, min, ◌&&◌, Option, none, some, List, [], ◌∷◌, ltb, leb, ◌==◌,
  if◌then◌else◌, length,
}
use blockvisor.Archive.{FileLocation}
pub mod Complete

-- A part of `file`, which `build_destinations` and the readers cut off at its beginning.
abbrev pub part : FileLocation → ℕ → FileLocation
part file size = record { path = file.path; pos = file.pos; size = size }

-- `file.size -= dest_size; file.pos += dest_size`, and the `pop` of a file that is used up.
abbrev pub advance : FileLocation → ℕ → List FileLocation → List FileLocation
advance file dest_size rest =
    if file.size - dest_size == 0
    then rest
    else record { path = file.path; pos = file.pos + dest_size; size = file.size - dest_size }
      ∷ rest

-- The `while` loop, on fuel: the destinations that it pushes, and the sources that it leaves.
build_loop : ℕ → ℕ → ℕ → List FileLocation → Option (List FileLocation × List FileLocation)
build_loop zero chunk_size bytes_in_slot sources = none
build_loop (suc fuel) chunk_size bytes_in_slot [] = some ([], [])
build_loop (suc fuel) chunk_size bytes_in_slot (file ∷ rest) =
    let dest_size = min file.size (chunk_size - bytes_in_slot) in
    let more =
      Option.map
        (λ ((ds, left) : List FileLocation × List FileLocation). (part file dest_size ∷ ds, left))
        (build_loop fuel chunk_size (bytes_in_slot + dest_size) (advance file dest_size rest)) in
    if leb bytes_in_slot chunk_size
    then (if leb chunk_size bytes_in_slot && ltb 0 file.size then some ([], file ∷ rest) else more)
    else some ([], file ∷ rest)

-- Each round but the last two uses a file up.
unfoldable pub build_destinations :
    ℕ → List FileLocation → Option (List FileLocation × List FileLocation)
unfolding build_loop
build_destinations chunk_size sources = build_loop (length sources + 2) chunk_size 0 sources
