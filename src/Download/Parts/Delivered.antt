-- ===== src/Download/Parts/Delivered.antt =====
-- A chunk that the server has, without compression: `download_chunk` of babel/src/download_job.rs
-- writes all of it to its destinations.
use native.Mathlib.Decide.{dec_lt}
use blockvisor.Archive.{FileLocation, Chunk, Checksum}
use blockvisor.Archive.Bytes.{total}
use blockvisor.Coder.{no_coder}
use blockvisor.Archive.Files.{same_bytes_refl}
use blockvisor.Common.Outcome.{Outcome, ok}
use blockvisor.Download.{DownloadError, ChunkData, end_of_chunk, Sends, and_then}
use blockvisor.Download.Destinations.{new, send_to_writer}
use blockvisor.Download.Destinations.Sent.{Sent, Sent-trans, Sent-total}
use blockvisor.Download.Destinations.Writes.{send_to_writer-Sent}
use blockvisor.Download.Parts.{
  Server, TransferConfig, Progress, download_round, download_loop, download_finish, download_chunk,
  expected_bytes,
}
use blockvisor.Common.{
  ℕ, zero, suc, ◌+◌, ◌-◌, ◌≤◌, ◌<◌, ◌≡◌, refl, sym, ap, subst, ◌∙◌, ◌≢◌, Bool, false, none, List,
  [], ◌∷◌, ◌++◌, append-nil, append_assoc, arith, length, slice, length-slice, slice-append, lt→ltb,
  take-length,
}
use blockvisor.Download.Parts.Served.{Serves, part_size, fetched, fetched_ok}

module _ (server : Server) (digest : Checksum → List ℕ → List ℕ) (config : TransferConfig)
    (stopped : ℕ → Bool) (chunk : Chunk) (content : List ℕ) where
  abbrev Served : ℕ → Type 0
  Served = Serves server digest config stopped chunk content

  abbrev size_at : ℕ → ℕ
  size_at = part_size server digest config stopped chunk content

  abbrev part_of : ℕ → Outcome DownloadError (List ℕ)
  part_of = fetched server digest config stopped chunk content

  abbrev round : Progress no_coder → Sends (Progress no_coder)
  round = download_round server digest no_coder config stopped chunk chunk.size

  abbrev after : Progress no_coder → List ℕ → List FileLocation → Progress no_coder
  after p bytes left = record {
    pos = p.pos + length bytes;
    hashed = p.hashed ++ bytes;
    state = none;
    destination = left;
  }

  round_ok :
      (p : Progress no_coder) (bytes : List ℕ) (sent : List ChunkData) (left : List FileLocation)
      → stopped p.pos ≡ false
      → part_of p.pos ≡ ok bytes
      → send_to_writer bytes p.destination ≡ (sent, ok left)
      → round p ≡ (sent ++ [], ok (after p bytes left))
  unfolding download_round
  round_ok p bytes sent left run f e =
      rw (run, download_round) (rw (f, and_then) (rw (e, and_then) (rw e)))

  -- The whole of the content, from `pos` on, goes to the destinations.
  abbrev Downloads : Sends (Progress no_coder) → Progress no_coder → Type 0
  Downloads run p =
      (sent : List ChunkData) × (p' : Progress no_coder) × (run ≡ (sent, ok p'))
      × (p'.hashed ≡ p.hashed ++ slice content p.pos (chunk.size - p.pos))
      × (p'.state ≡ none)
      × Sent (slice content p.pos (chunk.size - p.pos)) p.destination p'.destination sent

  abbrev loop : ℕ → Progress no_coder → Sends (Progress no_coder)
  loop fuel = download_loop server digest no_coder config stopped fuel chunk chunk.size

  loop_step :
      (fuel : ℕ) (p p' p'' : Progress no_coder) (sent more : List ChunkData)
      → p.pos < chunk.size
      → round p ≡ (sent, ok p')
      → loop fuel p' ≡ (more, ok p'')
      → loop (suc fuel) p ≡ (sent ++ more, ok p'')
  unfolding download_loop
  loop_step fuel p p' p'' sent more h e e' =
      rw (lt→ltb p.pos chunk.size h, download_loop) (rw (e, and_then) (rw (e', e)))

  loop_stop :
      (fuel : ℕ) (p : Progress no_coder) → chunk.size ≤ p.pos → loop (suc fuel) p ≡ ([], ok p)
  unfolding download_loop
  loop_stop fuel p h = ground arith

  module _ (served : (pos : ℕ) → pos < chunk.size → Served pos)
      (keeps_running : (pos : ℕ) → stopped pos ≡ false) (some_room : 0 < config.max_buffer_size)
      (same_size : length content ≡ chunk.size) where
    loop-Downloads :
        (fuel : ℕ) (p : Progress no_coder)
        → chunk.size - p.pos < fuel
        → p.pos ≤ chunk.size
        → chunk.size - p.pos ≤ total p.destination
        → p.state ≡ none
        → Downloads (loop fuel p) p
    loop-Downloads zero p enough below fits idle = absurd (omega arith)
    loop-Downloads (suc fuel) p enough below fits idle = elim (dec_lt p.pos chunk.size) [
      | no ended ↦
          let nothing : chunk.size - p.pos ≡ 0 = omega arith in
          (
            [],
            p,
            loop_stop fuel p (omega arith),
            rw (nothing, append-nil),
            idle,
            rw nothing (record { places = refl; bytes = refl }),
          )
      | yes more ↦
          let size = size_at p.pos in
          let bytes = slice content p.pos size in
          let known : length bytes ≡ size = length-slice content p.pos size (omega arith) in
          let (sent, left, run, t) = send_to_writer-Sent bytes p.destination (omega arith) in
          let p' = after p bytes left in
          let (sent', p'', run', hashed, state, t') =
            loop-Downloads fuel p' (omega arith) (omega arith)
              (omega (arith, Sent-total bytes p.destination left sent t)) refl in
          let split : bytes ++ slice content p'.pos (chunk.size - p'.pos)
              ≡ slice content p.pos (chunk.size - p.pos) =
            slice-append content p.pos size (chunk.size - p'.pos) p'.pos (chunk.size - p.pos)
              (omega arith) (omega arith) in
          (
            (sent ++ []) ++ sent',
            p'',
            loop_step fuel p p' p'' (sent ++ []) sent' more
                (round_ok p bytes sent left (keeps_running p.pos)
                  (fetched_ok server digest config stopped chunk content p.pos (served p.pos more)
                    (omega arith))
                  run)
                run',
            hashed ∙ append_assoc p.hashed bytes _ ∙ ap (◌++◌ p.hashed) split,
            state,
            rw append-nil (
                subst (λ xs. Sent xs p.destination p''.destination (sent ++ sent')) split
                  (Sent-trans bytes _ p.destination left p''.destination sent sent' t t')),
          )
    ]

    finish_ok :
        (p : Progress no_coder) (left : List FileLocation) (sent : List ChunkData)
        → p.state ≡ none
        → digest chunk.checksum p.hashed ≡ expected_bytes chunk.checksum
        → send_to_writer [] p.destination ≡ (sent, ok left)
        → download_finish server digest no_coder config stopped chunk p
          ≡ (sent ++ end_of_chunk chunk ∷ [], ok left)
    unfolding download_finish
    finish_ok p left sent idle same e =
        rw (same, same_bytes_refl, download_finish) (rw (idle, e, and_then) (rw (idle, e)))

    new_ok : (ds : List FileLocation) → ds ≢ [] → new ds ≡ ok ds
    unfolding new
    new_ok [] h = absurd (h refl)
    new_ok (d ∷ ds) h = refl

    chunk_run :
        (start p : Progress no_coder) (left : List FileLocation) (sent finished : List ChunkData)
        → chunk.destinations ≢ []
        → start ≡ record { pos = 0; hashed = []; state = none; destination = chunk.destinations }
        → loop (suc chunk.size) start ≡ (sent, ok p)
        → download_finish server digest no_coder config stopped chunk p ≡ (finished, ok left)
        → download_chunk server digest no_coder config stopped chunk ≡ (sent ++ finished, ok left)
    unfolding download_chunk
    chunk_run start p left sent finished some_file at_start run e =
        let run' = subst (λ s. loop (suc chunk.size) s ≡ (sent, ok p)) at_start run in
        rw (new_ok chunk.destinations some_file, and_then) (rw (run', and_then) (rw (e, run')))

    -- A chunk without compression, which the server has and whose checksum is right, downloads
    -- completely if its destinations are there and have room for it, the run flag is not stopped,
    -- and the buffer has room for a byte: all its bytes are written, in order, to the first of the
    -- destinations' places, and the end of the chunk is sent last.
    pub download_chunk-delivers :
        chunk.destinations ≢ []
        → digest chunk.checksum content ≡ expected_bytes chunk.checksum
        → length content ≤ total chunk.destinations
        → (parts : List ChunkData) × (left : List FileLocation) × (download_chunk server digest
              no_coder config stopped chunk
            ≡ (parts ++ end_of_chunk chunk ∷ [], ok left))
          × Sent content chunk.destinations left parts
    unfolding download_chunk
    download_chunk-delivers some_file right fits =
        let start : Progress no_coder = record {
          pos = 0;
          hashed = [];
          state = none;
          destination = chunk.destinations;
        } in
        let whole : slice content 0 (chunk.size - 0) ≡ content =
          let all : chunk.size - 0 ≡ length content = omega arith in
          rw (all, take-length content) in
        let (sent, p, run, hashed, state, t) =
          loop-Downloads (suc chunk.size) start (omega arith) (omega arith) (omega arith) refl in
        let (more, left, run', t') = send_to_writer-Sent [] p.destination (omega arith) in
        let finished = finish_ok p left more state (rw (hashed, whole) right) run' in
        (
          sent ++ more,
          left,
          chunk_run start p left sent (more ++ end_of_chunk chunk ∷ []) some_file refl run finished
              ∙ ap (λ xs. (xs, ok left)) (sym (append_assoc sent more (end_of_chunk chunk ∷ []))),
          subst (λ xs. Sent xs chunk.destinations left (sent ++ more)) (append-nil _ ∙ whole)
              (Sent-trans _ [] chunk.destinations p.destination left sent more t t'),
        )
