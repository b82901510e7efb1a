-- ===== src/Download/Parts/Served.antt =====
-- A server that has a chunk: each part of it is fetched by `download_part_with_retry` of
-- babel/src/download_job.rs.
use Prim.Native.String.{String}
use blockvisor.Archive.{Chunk, Checksum}
use blockvisor.Coder.{no_coder}
use blockvisor.Common.Outcome.{Outcome, ok}
use blockvisor.Retry.{Fails, with_retry-success}
use blockvisor.Download.{DownloadError}
use blockvisor.Download.Parts.{
  Response, Server, TransferConfig, collect_body, download_part, download_part_with_retry,
}
use blockvisor.Common.{
  ℕ, ◌+◌, ◌-◌, ◌≤◌, min, ◌≡◌, ap, ◌∙◌, Bool, true, false, some, List, [], ◌∷◌, ◌++◌, append-nil,
  append_assoc, arith, leb, length, length-append, slice, length-slice, flatten,
}

collect_body-flatten :
    (size : ℕ) (buffer : List ℕ) (body : List (List ℕ))
    → length buffer + length (flatten body) ≤ size
    → collect_body size false buffer body ≡ ok (buffer ++ flatten body)
unfolding collect_body
collect_body-flatten size buffer [] h = rw append-nil
collect_body-flatten size buffer (bytes ∷ body) h =
    let fits : leb (length bytes + length buffer) size ≡ true =
      ground (arith, length-append bytes (flatten body)) in
    rw fits (
      collect_body-flatten size (buffer ++ bytes) body
        (omega (arith, length-append bytes (flatten body), length-append buffer bytes))
      ∙ ap ok (append_assoc buffer bytes (flatten body)))

module _ (server : Server) (digest : Checksum → List ℕ → List ℕ) (config : TransferConfig)
    (stopped : ℕ → Bool) (chunk : Chunk) (content : List ℕ) where
  abbrev part_at : ℕ → ℕ → ℕ → Outcome DownloadError (List ℕ)
  part_at = download_part server digest no_coder config stopped chunk

  abbrev pub part_size : ℕ → ℕ
  part_size pos = min (chunk.size - pos) config.max_buffer_size

  -- The server has the chunk: it answers each request for a part, at one of the tries that there
  -- are, in full.
  pub record Serves (pos : ℕ) : Type 0 where
    pub tries : ℕ
    pub in_time : tries ≤ config.max_retries
    pub failed : Fails (part_at pos chunk.size) config.backoff_base_ms 0 tries
    pub url : String
    pub has_url : chunk.url ≡ some url
    pub response : Response
    pub answer : server url pos (pos + part_size pos) tries ≡ some response
    pub success : response.is_success ≡ true
    pub complete : response.breaks_off ≡ false
    pub bytes : flatten response.body ≡ slice content pos (part_size pos)

  part_ok :
      (pos : ℕ) (s : Serves pos)
      → pos + part_size pos ≤ length content
      → part_at pos chunk.size s.tries ≡ ok (slice content pos (part_size pos))
  unfolding download_part
  part_ok pos s h =
      let size : length (slice content pos (part_size pos)) ≡ part_size pos =
        length-slice content pos (part_size pos) h in
      let collected =
        collect_body-flatten (part_size pos) [] s.response.body
          (omega (arith, ap length s.bytes, size)) in
      let whole = s.bytes in
      ground (arith, collected, size, s.has_url, s.answer, s.success, s.complete, whole)

  abbrev pub fetched : ℕ → Outcome DownloadError (List ℕ)
  fetched pos = download_part_with_retry server digest no_coder config stopped chunk pos chunk.size

  pub fetched_ok :
      (pos : ℕ)
      → Serves pos
      → pos + part_size pos ≤ length content
      → fetched pos ≡ ok (slice content pos (part_size pos))
  unfolding download_part_with_retry
  fetched_ok pos s h =
      ap (λ (r : List ℕ × Outcome DownloadError (List ℕ)). r.1)
        (with_retry-success (part_at pos chunk.size) config.backoff_base_ms s.tries
          config.max_retries _ s.in_time s.failed (part_ok pos s h))
