-- ===== src/Download/Parts.antt =====
-- `ChunkDownloader` of babel/src/download_job.rs: a chunk is fetched in parts, each with retries,
-- decoded, and sent to the writer. The server is a parameter: its answer to the request for the
-- bytes from `pos` up to `end` of a chunk, at the n-th try. The digest is one too: of all the bytes
-- that it has been updated with. `stopped` says whether the run flag interrupts the part at `pos`.
use Prim.Native.String.{String}
use blockvisor.Archive.{FileLocation, Chunk, Checksum}
use blockvisor.Coder.{Coder}
use blockvisor.Archive.Files.{same_bytes}
use blockvisor.Common.Outcome.{Outcome, ok, err, out_of_fuel, ◌>>=◌}
use blockvisor.Retry.{with_retry}
use blockvisor.Download.{
  DownloadError, missing_chunk_url, request_failed, server_responded, more_bytes_than_requested,
  less_bytes_than_requested, coder_failed, checksum_mismatch, interrupted, end_of_chunk, Sends,
  and_then, lift,
}
use blockvisor.Download.Destinations.{new, send_to_writer}
use blockvisor.Common.{
  ℕ, zero, suc, ◌+◌, ◌-◌, min, Bool, true, false, Option, none, some, List, [], ◌∷◌, ◌++◌, ltb, leb,
  ◌==◌, if◌then◌else◌, length,
}
pub mod Served
pub mod Delivered

-- The head of an answer, and its body as it comes in; a body may break off.
pub record Response : Type 0 where
  pub is_success : Bool
  pub body : List (List ℕ)
  pub breaks_off : Bool

abbrev pub Server : Type 0
Server = String → ℕ → ℕ → ℕ → Option Response

pub record TransferConfig : Type 0 where
  pub max_opened_files : ℕ
  pub max_runners : ℕ
  pub max_connections : ℕ
  pub max_buffer_size : ℕ
  pub max_retries : ℕ  -- u32
  pub backoff_base_ms : ℕ  -- u64

-- The loop over `resp.chunk()`.
pub collect_body : ℕ → Bool → List ℕ → List (List ℕ) → Outcome DownloadError (List ℕ)
collect_body buffer_size breaks_off buffer [] = if breaks_off then err request_failed else ok buffer
collect_body buffer_size breaks_off buffer (bytes ∷ body) =
    let rest = collect_body buffer_size breaks_off (buffer ++ bytes) body in
    if leb (length bytes + length buffer) buffer_size then rest else err more_bytes_than_requested

abbrev pub expected_bytes : Checksum → List ℕ
expected_bytes (Checksum.sha1 bytes) = bytes
expected_bytes (Checksum.sha256 bytes) = bytes
expected_bytes (Checksum.blake3 bytes) = bytes

-- The state of the loop over the parts.
pub record Progress (decoder : Coder) : Type 0 where
  pub pos : ℕ
  pub hashed : List ℕ
  pub state : decoder.State
  pub destination : List FileLocation

abbrev pub or_failed {ℓ} : {A : Type ℓ} → Option A → Outcome DownloadError A
or_failed none = err coder_failed
or_failed (some a) = ok a

module _ (server : Server) (digest : Checksum → List ℕ → List ℕ) (decoder : Coder)
    (config : TransferConfig) (stopped : ℕ → Bool) where
  open decoder use {State, initial, feed, consume, finalize}

  unfoldable pub download_part : Chunk → ℕ → ℕ → ℕ → Outcome DownloadError (List ℕ)
  download_part chunk pos chunk_size attempt =
      let buffer_size = min (chunk_size - pos) config.max_buffer_size in
      elim chunk.url [
        | none ↦ err missing_chunk_url
        | some url ↦ elim (server url pos (pos + buffer_size) attempt) [
          | none ↦ err request_failed
          | some response ↦
              if response.is_success
              then (collect_body buffer_size response.breaks_off [] response.body >>= λ buffer.
                  if length buffer == buffer_size then ok buffer else err less_bytes_than_requested)
              else err server_responded
        ]
      ]

  pub download_part_with_retry : Chunk → ℕ → ℕ → Outcome DownloadError (List ℕ)
  unfolding download_part
  download_part_with_retry chunk pos chunk_size =
      (with_retry (download_part chunk pos chunk_size) config.backoff_base_ms config.max_retries).1

  -- One round: a part is fetched, hashed, decoded and sent.
  pub download_round : Chunk → ℕ → Progress decoder → Sends (Progress decoder)
  download_round chunk chunk_size p =
      if stopped p.pos
      then lift (err interrupted)
      else (and_then (lift (download_part_with_retry chunk p.pos chunk_size)) λ buffer.
          and_then (lift (or_failed (feed p.state buffer))) λ fed.
            and_then (lift (or_failed (consume fed))) λ ((decoded, state) : List ℕ × State).
              and_then (send_to_writer decoded p.destination) λ destination. lift (
                ok (record {
                  pos = p.pos + length buffer;
                  hashed = p.hashed ++ buffer;
                  state = state;
                  destination = destination;
                })))

  -- The `while` loop, on fuel: each part has at least one byte.
  pub download_loop : ℕ → Chunk → ℕ → Progress decoder → Sends (Progress decoder)
  download_loop zero chunk chunk_size p = lift out_of_fuel
  download_loop (suc fuel) chunk chunk_size p = elim (ltb p.pos chunk_size) [
    | false ↦ lift (ok p)
    | true ↦
        and_then (download_round chunk chunk_size p) λ p'. download_loop fuel chunk chunk_size p'
  ]

  -- What follows the loop.
  pub download_finish : Chunk → Progress decoder → Sends (List FileLocation)
  download_finish chunk p =
      if same_bytes (digest chunk.checksum p.hashed) (expected_bytes chunk.checksum)
      then (and_then (lift (or_failed (finalize p.state))) λ decoded.
          and_then (send_to_writer decoded p.destination)
            λ destination. (end_of_chunk chunk ∷ [], ok destination))
      else lift (err checksum_mismatch)

  pub download_chunk : Chunk → Sends (List FileLocation)
  download_chunk chunk = and_then (lift (new chunk.destinations)) λ destination.
      and_then
        (download_loop (suc chunk.size) chunk chunk.size
          (record { pos = 0; hashed = []; state = initial; destination = destination }))
        λ p. download_finish chunk p
