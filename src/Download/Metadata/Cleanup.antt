-- ===== src/Download/Metadata/Cleanup.antt =====
-- What `cleanup_job` (babel/src/download_job.rs) removes.
use blockvisor.Common.{
  ℕ, ◌≡◌, refl, ap, subst, ◌∙◌, inl, inr, Bool, true, false, ◌||◌, Option, none, some, List, [],
  ◌∷◌, arith, if◌then◌else◌, Bool-cases,
}
use blockvisor.Archive.{FilePath, FileLocation, Chunk, DownloadMetadata}
use blockvisor.Archive.Files.{Files, same_path, same_path→eq}
use blockvisor.Common.Outcome.{Outcome, ok, err, out_of_fuel}
use blockvisor.Download.Metadata.{
  MetaDir, JobError, not_removed, Line, load_chunks, without_file, Removed, remove_file, and_remove,
  remove_destinations, remove_remnants, Removable, remove_metadata, remove_parts, remove_loaded,
  clean_parts, clean_chunks, cleanup_job,
}

-- Whether the file is one of the destinations, and of those of the chunks.
abbrev pub names : FilePath → List FileLocation → Bool
names path [] = false
names path (d ∷ ds) = same_path d.path path || names path ds

abbrev pub chunks_name : FilePath → List Chunk → Bool
chunks_name path [] = false
chunks_name path (chunk ∷ chunks) = names path chunk.destinations || chunks_name path chunks

abbrev pub Without : (FilePath → Bool) → Files → Files → Type 0
Without gone files files' =
    (path : FilePath) → files' path ≡ (if gone path then none else files path)

abbrev Removes : (FilePath → Bool) → Files → Removed → Type 0
Removes gone files run = (files' : Files) × (run ≡ (files', true)) × Without gone files files'

remove_file-Removes :
    (removes : FilePath → Bool) (path : FilePath) (old : Option (List ℕ)) (files : Files)
    → ((path : FilePath) → removes path ≡ true)
    → files path ≡ old
    → Removes (same_path path) files (remove_file removes path old files)
remove_file-Removes removes path none files can e = (
  files,
  refl,
  λ other. elim (Bool-cases (same_path path other)) [
    | inl same ↦ rw same (subst (λ p. files p ≡ none) (same_path→eq path other same) e)
    | inr differs ↦ rw differs
  ],
)
remove_file-Removes removes path (some file) files can e =
    (without_file path files, rw (can path), λ other. refl)

twice :
    (g h : FilePath → Bool) (files files' files2 : Files)
    → Without g files files'
    → Without h files' files2
    → Without (λ path. g path || h path) files files2
twice g h files files' files2 first second path = ground (arith, first path, second path)

remove_destinations-Removes :
    (removes : FilePath → Bool) (ds : List FileLocation) (files : Files)
    → ((path : FilePath) → removes path ≡ true)
    → Removes (λ path. names path ds) files (remove_destinations removes ds files)
remove_destinations-Removes removes [] files can = (files, refl, λ path. refl)
remove_destinations-Removes removes (d ∷ ds) files can =
    let (files', run, first) = remove_file-Removes removes d.path (files d.path) files can refl in
    let (files2, run', second) = remove_destinations-Removes removes ds files' can in
    (
      files2,
      ap (and_remove (remove_destinations removes ds)) run ∙ run',
      twice (same_path d.path) (λ path. names path ds) files files' files2 first second,
    )

remove_remnants-Removes :
    (removes : FilePath → Bool) (chunks : List Chunk) (files : Files)
    → ((path : FilePath) → removes path ≡ true)
    → Removes (λ path. chunks_name path chunks) files (remove_remnants removes chunks files)
remove_remnants-Removes removes [] files can = (files, refl, λ path. refl)
remove_remnants-Removes removes (chunk ∷ chunks) files can =
    let (files', run, first) = remove_destinations-Removes removes chunk.destinations files can in
    let (files2, run', second) = remove_remnants-Removes removes chunks files' can in
    (
      files2,
      ap (and_remove (remove_remnants removes chunks)) run ∙ run',
      twice (λ path. names path chunk.destinations) (λ path. chunks_name path chunks) files files'
          files2 first second,
    )

abbrev pub empty_dir : MetaDir
empty_dir = record { metadata = none; chunks = none; parts = none }

abbrev dir_of : Option DownloadMetadata → Option (List Line) → Option (List Line) → MetaDir
dir_of metadata chunks parts = record { metadata = metadata; chunks = chunks; parts = parts }

abbrev chunks_of : Outcome JobError (List Chunk) → List Chunk
chunks_of (ok chunks) = chunks
chunks_of (err e) = []
chunks_of out_of_fuel = []

module _ (removes : FilePath → Bool) (removable : Removable) where
  remove_metadata-empties :
      (metadata : Option DownloadMetadata) (files : Files)
      → removable.metadata ≡ true
      → remove_metadata removable (dir_of metadata none none) metadata files
        ≡ (empty_dir, files, ok tt)
  remove_metadata-empties none files can = refl
  remove_metadata-empties (some metadata) files can = simp can

  clean_parts-empties :
      (metadata : Option DownloadMetadata) (parts : Option (List Line)) (chunks : List Chunk)
      (files : Files)
      → ((path : FilePath) → removes path ≡ true)
      → removable.parts ≡ true
      → removable.metadata ≡ true
      → load_chunks parts ≡ ok chunks
      → (files' : Files) × (clean_parts removes removable (dir_of metadata none parts) parts files
          ≡ (empty_dir, files', ok tt))
        × Without (λ path. chunks_name path chunks) files files'
  clean_parts-empties metadata none chunks files can can_parts can_metadata loaded = (
    files,
    remove_metadata-empties metadata files can_metadata,
    λ path. ap (λ cs. if chunks_name path cs then none else files path) (ap chunks_of loaded),
  )
  clean_parts-empties metadata (some lines) chunks files can can_parts can_metadata loaded =
      let dir = dir_of metadata none (some lines) in
      let (files', run, without) = remove_remnants-Removes removes chunks files can in
      (
        files',
        ap (λ c. remove_loaded removes removable dir c files) loaded
            ∙ ap (remove_parts removable dir) run
            ∙ ap
                (λ b.
                  if b
                  then remove_metadata removable (dir_of metadata none none) metadata files'
                  else (dir, files', err not_removed))
                can_parts
            ∙ remove_metadata-empties metadata files' can_metadata,
        without,
      )

  clean_chunks-empties :
      (metadata : Option DownloadMetadata) (saved parts : Option (List Line)) (chunks : List Chunk)
      (files : Files)
      → ((path : FilePath) → removes path ≡ true)
      → removable.chunks ≡ true
      → removable.parts ≡ true
      → removable.metadata ≡ true
      → load_chunks parts ≡ ok chunks
      → (files' : Files) × (clean_chunks removes removable (dir_of metadata saved parts) saved files
          ≡ (empty_dir, files', ok tt))
        × Without (λ path. chunks_name path chunks) files files'
  clean_chunks-empties metadata none parts chunks files can can_chunks can_parts can_metadata
        loaded =
      clean_parts-empties metadata parts chunks files can can_parts can_metadata loaded
  clean_chunks-empties metadata (some lines) parts chunks files can can_chunks can_parts
        can_metadata loaded =
      let (files', run, without) =
        clean_parts-empties metadata parts chunks files can can_parts can_metadata loaded in
      (
        files',
        ap
              (λ b.
                if b
                then clean_parts removes removable (dir_of metadata none parts) parts files
                else (dir_of metadata (some lines) parts, files, err not_removed))
              can_chunks
            ∙ run,
        without,
      )

  -- Where each file can be removed and the parts file is one of chunks, the cleanup ends without an
  -- error: it leaves an empty directory, and of the files it removes those that a chunk of the parts
  -- file has as a destination, and no others.
  pub cleanup_job-removes :
      (dir : MetaDir) (chunks : List Chunk) (files : Files)
      → ((path : FilePath) → removes path ≡ true)
      → removable.chunks ≡ true
      → removable.parts ≡ true
      → removable.metadata ≡ true
      → load_chunks dir.parts ≡ ok chunks
      → (files' : Files) × (cleanup_job removes removable dir files ≡ (empty_dir, files', ok tt))
        × Without (λ path. chunks_name path chunks) files files'
  unfolding cleanup_job
  cleanup_job-removes dir chunks files can can_chunks can_parts can_metadata loaded =
      clean_chunks-empties dir.metadata dir.chunks dir.parts chunks files can can_chunks can_parts
        can_metadata loaded
