-- ===== src/Download/Metadata.antt =====
-- What babel/src/download_job.rs keeps in the directory of a job: `get_metadata` of `Downloader` and of
-- `ClientDownloader`, the check of the disk space, and `cleanup_job`; with `save_chunk` and
-- `load_chunks` of babel/src/jobs.rs. A file of chunks is its lines; one that is written as a whole by
-- `save_job_data` is a single line that no chunk is parsed from. That a file cannot be read, written or
-- removed is given.
use blockvisor.Common.{
  ℕ, ◌+◌, ◌-◌, ◌%◌, ◌^◌, Bool, true, false, Option, none, some, List, [], ◌∷◌, ◌++◌, ltb, leb,
  if◌then◌else◌,
}
use blockvisor.Archive.{FilePath, FileLocation, Chunk, DownloadMetadata}
use blockvisor.Archive.Files.{Files, same_path}
use blockvisor.Common.Outcome.{Outcome, ok, err, out_of_fuel, ◌>>=◌}
pub mod FirstRun
pub mod Cleanup

pub data Line : Type 0 where
  chunk_line : Chunk → Line
  array_line : List Chunk → Line

pub data JobError : Type 0 where
  invalid_manifest : ℕ → ℕ → JobError
  no_disk_space : ℕ → ℕ → JobError
  engine_failed : JobError
  invalid_chunk : JobError
  not_saved : JobError
  not_removed : JobError
  writer_failed : JobError
  download_failed : JobError
  download_interrupted : JobError

-- The files of the directory, where they exist.
pub record MetaDir : Type 0 where
  pub metadata : Option DownloadMetadata
  pub chunks : Option (List Line)
  pub parts : Option (List Line)

abbrev pub saved_lines : Option (List Line) → List Line
saved_lines none = []
saved_lines (some lines) = lines

abbrev pub save_chunk : Chunk → Option (List Line) → Option (List Line)
save_chunk chunk file = some (saved_lines file ++ chunk_line chunk ∷ [])

abbrev pub parse_line : Line → Outcome JobError (List Chunk) → Outcome JobError (List Chunk)
parse_line (array_line chunks) rest = err invalid_chunk
parse_line (chunk_line chunk) rest = rest >>= λ chunks. ok (chunk ∷ chunks)

abbrev pub load_lines : List Line → Outcome JobError (List Chunk)
load_lines [] = ok []
load_lines (line ∷ lines) = parse_line line (load_lines lines)

-- No chunks, where there is no file.
abbrev pub load_chunks : Option (List Line) → Outcome JobError (List Chunk)
load_chunks file = load_lines (saved_lines file)

abbrev pub destinations_size : List FileLocation → ℕ
destinations_size [] = 0
destinations_size (d ∷ ds) = (d.size + destinations_size ds) % 2 ^ 64

abbrev pub downloaded_bytes : List Chunk → ℕ
downloaded_bytes [] = 0
downloaded_bytes (chunk ∷ chunks) =
    (destinations_size chunk.destinations + downloaded_bytes chunks) % 2 ^ 64

abbrev pub required_disk_space : DownloadMetadata → List Chunk → Outcome JobError ℕ
required_disk_space metadata chunks =
    if leb (downloaded_bytes chunks) metadata.total_size
    then ok (metadata.total_size - downloaded_bytes chunks)
    else err (invalid_manifest metadata.total_size (downloaded_bytes chunks))

unfoldable pub check_disk_space : ℕ → DownloadMetadata → List Chunk → Outcome JobError (Unit {0})
check_disk_space available_space metadata chunks =
    required_disk_space metadata chunks >>= λ required_space.
    if ltb available_space required_space
    then err (no_disk_space required_space available_space)
    else ok tt

-- The engine's replies after retries, and whether the files can be written.
pub record Engine : Type 0 where
  pub metadata : Option DownloadMetadata
  pub chunks : ℕ → ℕ → Option (List Chunk)
  pub saves_metadata : Bool
  pub saves_chunks : Bool

abbrev pub Loaded : Type 0
Loaded = MetaDir × Outcome JobError (DownloadMetadata × List Chunk)

abbrev pub load_saved : MetaDir → DownloadMetadata → Loaded
load_saved dir metadata = (dir, load_chunks dir.chunks >>= λ chunks. ok (metadata, chunks))

abbrev pub save_first : Engine → MetaDir → DownloadMetadata → Option (List Chunk) → Loaded
save_first engine dir metadata none = (dir, err engine_failed)
save_first engine dir metadata (some chunks) =
    if engine.saves_metadata
    then if engine.saves_chunks
      then (
        record dir { metadata = some metadata; chunks = some (array_line chunks ∷ []) },
        ok (metadata, chunks),
      )
      else (record dir { metadata = some metadata }, err not_saved)
    else (dir, err not_saved)

abbrev pub fetch_first : Engine → MetaDir → Option DownloadMetadata → Loaded
fetch_first engine dir none = (dir, err engine_failed)
fetch_first engine dir (some metadata) =
    save_first engine dir metadata (engine.chunks metadata.data_version metadata.chunks)

abbrev pub get_metadata_of : Engine → MetaDir → Option DownloadMetadata → Loaded
get_metadata_of engine dir (some metadata) = load_saved dir metadata
get_metadata_of engine dir none = fetch_first engine dir engine.metadata

-- `Downloader::get_metadata`.
unfoldable pub get_metadata : Engine → MetaDir → Loaded
get_metadata engine dir = get_metadata_of engine dir dir.metadata

abbrev pub without_file : FilePath → Files → Files
without_file path files other = if same_path path other then none else files other

-- Whether each file that should be removed was.
abbrev pub Removed : Type 0
Removed = Files × Bool

abbrev pub remove_file : (FilePath → Bool) → FilePath → Option (List ℕ) → Files → Removed
remove_file removes path none files = (files, true)
remove_file removes path (some file) files =
    if removes path then (without_file path files, true) else (files, false)

abbrev pub and_remove : (Files → Removed) → Removed → Removed
and_remove rest (files, true) = rest files
and_remove rest (files, false) = (files, false)

abbrev pub remove_destinations : (FilePath → Bool) → List FileLocation → Files → Removed
remove_destinations removes [] files = (files, true)
remove_destinations removes (d ∷ ds) files =
    and_remove (remove_destinations removes ds) (remove_file removes d.path (files d.path) files)

abbrev pub remove_remnants : (FilePath → Bool) → List Chunk → Files → Removed
remove_remnants removes [] files = (files, true)
remove_remnants removes (chunk ∷ chunks) files =
    and_remove (remove_remnants removes chunks)
      (remove_destinations removes chunk.destinations files)

-- Whether the files of the directory itself can be removed.
pub record Removable : Type 0 where
  pub chunks : Bool
  pub parts : Bool
  pub metadata : Bool

abbrev pub Cleaned : Type 0
Cleaned = MetaDir × Files × Outcome JobError (Unit {0})

abbrev pub remove_metadata : Removable → MetaDir → Option DownloadMetadata → Files → Cleaned
remove_metadata removable dir none files = (dir, files, ok tt)
remove_metadata removable dir (some metadata) files =
    if removable.metadata
    then (record dir { metadata = none }, files, ok tt)
    else (dir, files, err not_removed)

abbrev pub remove_parts : Removable → MetaDir → Removed → Cleaned
remove_parts removable dir (files, false) = (dir, files, err not_removed)
remove_parts removable dir (files, true) =
    if removable.parts
    then remove_metadata removable (record dir { parts = none }) dir.metadata files
    else (dir, files, err not_removed)

abbrev pub remove_loaded :
    (FilePath → Bool) → Removable → MetaDir → Outcome JobError (List Chunk) → Files → Cleaned
remove_loaded removes removable dir (ok chunks) files =
    remove_parts removable dir (remove_remnants removes chunks files)
remove_loaded removes removable dir (err e) files = (dir, files, err e)
remove_loaded removes removable dir out_of_fuel files = (dir, files, out_of_fuel)

abbrev pub clean_parts :
    (FilePath → Bool) → Removable → MetaDir → Option (List Line) → Files → Cleaned
clean_parts removes removable dir none files = remove_metadata removable dir dir.metadata files
clean_parts removes removable dir (some lines) files =
    remove_loaded removes removable dir (load_chunks (some lines)) files

abbrev pub clean_chunks :
    (FilePath → Bool) → Removable → MetaDir → Option (List Line) → Files → Cleaned
clean_chunks removes removable dir none files = clean_parts removes removable dir dir.parts files
clean_chunks removes removable dir (some lines) files =
    if removable.chunks
    then clean_parts removes removable (record dir { chunks = none }) dir.parts files
    else (dir, files, err not_removed)

unfoldable pub cleanup_job : (FilePath → Bool) → Removable → MetaDir → Files → Cleaned
cleanup_job removes removable dir files = clean_chunks removes removable dir dir.chunks files
