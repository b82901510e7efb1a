-- ===== src/Download/Metadata/FirstRun.antt =====
-- The first runs of `Downloader` (babel/src/download_job.rs) in a new directory.
use blockvisor.Common.{ℕ, ◌<◌, ◌≡◌, refl, ap, ◌∙◌, Bool, true, none, some, List, [], ◌∷◌, arith}
use blockvisor.Archive.{Chunk, DownloadMetadata}
use blockvisor.Common.Outcome.{ok, err}
use blockvisor.Download.Parallel.{
  contains, indexes_of, indexes_left, new_downloaders, Reply, launch_more,
}
use blockvisor.Download.Parallel.Counts.{count, count-indexes_left}
use blockvisor.Download.Metadata.{
  MetaDir, Engine, array_line, invalid_chunk, fetch_first, save_first, get_metadata_of,
  get_metadata,
}

no_count : (xs : List ℕ) → ((i : ℕ) → count i xs ≡ 0) → xs ≡ []
no_count [] h = refl
no_count (x ∷ xs) h = absurd (ground (arith, h x))

none_left :
    (total : ℕ) (downloaded : List ℕ)
    → ((i : ℕ) → i < total → contains i downloaded ≡ true)
    → indexes_left total downloaded ≡ []
none_left total downloaded all =
    no_count (indexes_left total downloaded)
      (λ i. ground (arith, all i, count-indexes_left total downloaded i))

save_first-saves :
    (engine : Engine) (dir : MetaDir) (metadata : DownloadMetadata) (chunks : List Chunk)
    → engine.saves_metadata ≡ true
    → engine.saves_chunks ≡ true
    → save_first engine dir metadata (some chunks) ≡ (
      record dir { metadata = some metadata; chunks = some (array_line chunks ∷ []) },
      ok (metadata, chunks),
    )
save_first-saves engine dir metadata chunks saves_metadata saves_chunks =
    simp (saves_metadata, saves_chunks)

-- The engine has metadata and a chunk of each index, and both can be saved in a directory that has no
-- metadata. Then the first run takes all chunks as downloaded, so that `launch_more` launches none of
-- them, without an error; and the run after it fails, since no chunk can be parsed from what the first
-- one has saved.
pub get_metadata-first_run :
    (engine : Engine) (dir : MetaDir) (metadata : DownloadMetadata) (chunks : List Chunk)
    (max_runners : ℕ) (reply : Reply) (saves : Chunk → Bool)
    → dir.metadata ≡ none
    → engine.metadata ≡ some metadata
    → engine.chunks metadata.data_version metadata.chunks ≡ some chunks
    → engine.saves_metadata ≡ true
    → engine.saves_chunks ≡ true
    → ((i : ℕ) → i < metadata.chunks → contains i (indexes_of chunks) ≡ true)
    → ((get_metadata engine dir).1 ≡ ok (metadata, chunks))
      × (launch_more reply saves
            (new_downloaders max_runners metadata.chunks (indexes_of chunks) [])
          ≡ (new_downloaders max_runners metadata.chunks (indexes_of chunks) [], true))
      × ((get_metadata engine (get_metadata engine dir).0).1 ≡ err invalid_chunk)
unfolding get_metadata launch_more
get_metadata-first_run engine dir metadata chunks max_runners reply saves nothing has_metadata
      has_chunks saves_metadata saves_chunks all =
    let run : get_metadata engine dir ≡ (
      record dir { metadata = some metadata; chunks = some (array_line chunks ∷ []) },
      ok (metadata, chunks),
    ) =
      ap (get_metadata_of engine dir) nothing
      ∙ ap (fetch_first engine dir) has_metadata
      ∙ ap (save_first engine dir metadata) has_chunks
      ∙ save_first-saves engine dir metadata chunks saves_metadata saves_chunks in
    (
      ap (λ r. r.1) run,
      rw (none_left metadata.chunks (indexes_of chunks) all),
      ap (λ r. (get_metadata engine r.0).1) run,
    )
