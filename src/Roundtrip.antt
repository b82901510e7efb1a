-- ===== src/Roundtrip.antt =====
-- Upload and download of a chunk together: babel/src/upload_job.rs reads the files that
-- babel/src/download_job.rs writes. The paths of the destinations are relative to the directory of
-- the protocol data on both sides, and are the same here.
pub mod Stored
use blockvisor.Archive.{FilePath, FileLocation, Chunk, Checksum}
use blockvisor.Archive.Bytes.{Location, total, locations, range, length-locations}
use blockvisor.Archive.Files.{byte_at, Holds, Holds-append}
use blockvisor.Coder.{no_coder}
use blockvisor.Common.Outcome.{ok}
use blockvisor.Upload.Reader.{Files, DestinationsReader, chunk_body}
use blockvisor.Upload.Reader.Data.{IsStored, data_of, data_at, length-data_of}
use blockvisor.Upload.Reader.Whole.{chunk_body-data}
use blockvisor.Download.{ChunkData, end_of_chunk}
use blockvisor.Download.Destinations.Sent.{where_written, what_written, Sent-total}
use blockvisor.Download.Parts.{Server, TransferConfig, download_chunk, expected_bytes}
use blockvisor.Download.Parts.Served.{Serves}
use blockvisor.Download.Parts.Delivered.{download_chunk-delivers}
use blockvisor.Common.{
  slice-suc, ℕ, zero, suc, ◌+◌, ◌≤◌, ◌<◌, ◌≡◌, refl, sym, ap, ◌∙◌, ◌≢◌, Bool, false, some, List, [],
  ◌∷◌, ◌++◌, append-nil, arith, length, flatten, All, slice, slice-suc,
}

slice-Holds :
    (files : Files) (path : FilePath) (file : List ℕ) (pos size : ℕ)
    → files path ≡ some file
    → pos + size ≤ length file
    → Holds files (range path pos size) (slice file pos size)
slice-Holds files path file pos zero found fits = tt
slice-Holds files path file pos (suc size) found fits =
    let (byte, e, rest) = slice-suc file pos size fits in
    rw rest
      ((rw (found, byte_at) e), slice-Holds files path file (pos + 1) size found (omega arith))

data_of-Holds :
    (files : Files) (ds : List FileLocation)
    → All (IsStored files) ds
    → Holds files (locations ds) (data_of files ds)
data_of-Holds files [] stored = tt
data_of-Holds files (d ∷ ds) (s, stored) =
    Holds-append files (range d.path d.pos d.size) (locations ds) (data_at files d)
      (data_of files ds)
      (rw (s.found, data_at) (slice-Holds files d.path s.file d.pos d.size s.found s.long_enough))
      (data_of-Holds files ds stored)

no_locations : (xs : List Location) → length xs ≡ 0 → xs ≡ []
no_locations [] h = refl
no_locations (x ∷ xs) h = absurd (omega arith)

-- What is uploaded is downloaded. Take a chunk, not compressed, of files that are there and long
-- enough, of the size and with the checksum that the upload gives it. The upload reads it without
-- an error. If the server then has what was uploaded, and the download is not stopped, every place
-- of the chunk's destinations is written, in order, with the byte that the uploaded files hold
-- there, and the end of the chunk is sent last.
pub download-upload :
    (files : Files) (server : Server) (digest : Checksum → List ℕ → List ℕ)
    (config : TransferConfig) (stopped : ℕ → Bool) (chunk : Chunk)
    → chunk.destinations ≢ []
    → All (IsStored files) chunk.destinations
    → chunk.size ≡ total chunk.destinations
    → digest chunk.checksum (data_of files chunk.destinations) ≡ expected_bytes chunk.checksum
    → 0 < config.max_buffer_size
    → ((pos : ℕ) → stopped pos ≡ false)
    → ((pos : ℕ)
        → pos < chunk.size
        → Serves server digest config stopped chunk (data_of files chunk.destinations) pos)
    → (body : List (List ℕ)) × (reader : DestinationsReader no_coder) × (chunk_body files no_coder
          config.max_buffer_size chunk.destinations
        ≡ ok (body, reader))
      × (reader.sent ≡ some (flatten body))
      × (parts : List ChunkData) × (left : List FileLocation) × (download_chunk server digest
            no_coder config stopped chunk
          ≡ (parts ++ end_of_chunk chunk ∷ [], ok left))
      × (what_written parts ≡ flatten body)
      × (where_written parts ≡ locations chunk.destinations)
      × Holds files (where_written parts) (what_written parts)
download-upload files server digest config stopped chunk some_file stored size right some_room
      keeps_running served =
    let content = data_of files chunk.destinations in
    let known : length content ≡ total chunk.destinations =
      length-data_of files chunk.destinations stored in
    let (body, reader, read, all, hashed, _) =
      chunk_body-data files config.max_buffer_size chunk.destinations some_file some_room stored in
    let (parts, left, run, t) =
      download_chunk-delivers server digest config stopped chunk content served keeps_running
        some_room (known ∙ sym size) some_file right (omega arith) in
    let nothing_left : locations left ≡ [] =
      no_locations (locations left) (
        omega (arith, length-locations left, Sent-total content chunk.destinations left parts t)) in
    let places : where_written parts ≡ locations chunk.destinations =
      sym (append-nil (where_written parts))
      ∙ ap (◌++◌ (where_written parts)) (sym nothing_left)
      ∙ t.places in
    (
      body,
      reader,
      read,
      hashed ∙ ap some (sym all),
      parts,
      left,
      run,
      t.bytes ∙ sym all,
      places,
      rw (places, t.bytes) (data_of-Holds files chunk.destinations stored),
    )
