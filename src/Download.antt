-- ===== src/Download.antt =====
-- babel/src/download_job.rs: the parts of a chunk, and how they are put into files. A function that
-- sends to the writer returns what it has sent, also where it ends with an error.
use Prim.Native.String.{String}
use blockvisor.Archive.{FilePath, Chunk}
use blockvisor.Common.Outcome.{Outcome, ok, err, out_of_fuel}
use blockvisor.Common.{ℕ, ◌+◌, List, [], ◌++◌}
pub mod Destinations
pub mod Parts
pub mod Writer
pub mod Parallel
pub mod Metadata

pub data DownloadError : Type 0 where
  corrupted_manifest : DownloadError
  size_mismatch : DownloadError
  missing_chunk_url : DownloadError
  request_failed : DownloadError
  server_responded : DownloadError
  more_bytes_than_requested : DownloadError
  less_bytes_than_requested : DownloadError
  coder_failed : DownloadError
  checksum_mismatch : DownloadError
  interrupted : DownloadError

pub data ChunkData : Type 0 where
  file_part : FilePath → ℕ → List ℕ → ChunkData
  end_of_chunk : Chunk → ChunkData

abbrev pub Sends {ℓ} : Type ℓ → Type ℓ
Sends A = List ChunkData × Outcome DownloadError A

-- What follows an error is not done; the receiver outlives the senders.
abbrev pub and_then {ℓ κ} : {A : Type ℓ} {B : Type κ} → Sends A → (A → Sends B) → Sends B
and_then (sent, ok a) f = let (more, result) = f a in (sent ++ more, result)
and_then (sent, err e) f = (sent, err e)
and_then (sent, out_of_fuel) f = (sent, out_of_fuel)

abbrev pub lift {ℓ} : {A : Type ℓ} → Outcome DownloadError A → Sends A
lift result = ([], result)
