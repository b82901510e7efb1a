-- ===== src/Download/Writer.antt =====
-- `Writer` of babel/src/download_job.rs: it receives what the chunk downloaders send, and writes it
-- into files, of which it keeps some open. A handle is the path that it was opened by: nobody else
-- renames or removes the files meanwhile. That the directory of the data is joined to a path is left
-- out, and so are flushes and syncs, which fail without an error.
use blockvisor.Common.{
  ℕ, ◌+◌, ◌-◌, ◌%◌, ◌^◌, Bool, true, false, ◌||◌, Option, none, some, List, [], ◌∷◌, ◌++◌, leb,
  if◌then◌else◌, length, take,
}
use blockvisor.Archive.{FilePath, Chunk}
use blockvisor.Archive.Files.{Files, same_path, put, overwrite}
use blockvisor.Download.{ChunkData, file_part, end_of_chunk}
pub mod Open
pub mod Step
pub mod Bounded
pub mod Refines
pub mod Bytes

pub record JobProgress : Type 0 where
  pub total : ℕ  -- u32
  pub current : ℕ  -- u32

pub data WriterError : Type 0 where
  open_failed : WriterError
  write_failed : WriterError
  save_failed : WriterError

-- An entry of `opened_files`: the path, and when it was used last.
abbrev pub Opened : Type 0
Opened = FilePath × ℕ

pub record Writer : Type 0 where
  pub files : Files
  pub opened_files : List Opened
  pub max_opened_files : ℕ
  pub total_chunks_count : ℕ  -- u32
  pub downloaded_chunks : List Chunk
  pub saved_chunks : List Chunk
  pub saved_progress : Option JobProgress

-- What the system does while a message is handled: whether the run flag is still set before it, the
-- time, whether the file can be created and opened, how many bytes can be written until a write
-- fails, and whether the chunk and the progress can be saved.
pub record Moment : Type 0 where
  pub running : Bool
  pub now : ℕ
  pub opens : Bool
  pub space : ℕ
  pub saves_chunk : Bool
  pub saves_progress : Bool

-- A handler returns the writer and the error that it ends with, if it does.
abbrev pub Handled : Type 0
Handled = Writer × Option WriterError

abbrev pub new_writer : Files → ℕ → ℕ → List Chunk → List Chunk → Writer
new_writer files max_opened_files total_chunks_count downloaded_chunks saved_chunks = record {
  files = files;
  opened_files = [];
  max_opened_files = max_opened_files;
  total_chunks_count = total_chunks_count;
  downloaded_chunks = downloaded_chunks;
  saved_chunks = saved_chunks;
  saved_progress = none;
}

abbrev pub is_open : FilePath → List Opened → Bool
is_open path [] = false
is_open path ((other, used) ∷ opened) = same_path other path || is_open path opened

abbrev pub touch : FilePath → ℕ → List Opened → List Opened
touch path now [] = []
touch path now ((other, used) ∷ opened) =
    if same_path other path then (other, now) ∷ opened else (other, used) ∷ touch path now opened

abbrev pub pick : Bool → Opened → Opened → Opened
pick true entry other = entry
pick false entry other = other

abbrev pub older : Opened → Option Opened → Opened
older entry none = entry
older entry (some other) = pick (leb entry.1 other.1) entry other

-- `min_by`: of several entries of the same time, the first.
abbrev pub oldest : List Opened → Option Opened
oldest [] = none
oldest (entry ∷ opened) = some (older entry (oldest opened))

abbrev pub close : FilePath → List Opened → List Opened
close path [] = []
close path ((other, used) ∷ opened) =
    if same_path other path then opened else (other, used) ∷ close path opened

abbrev pub close_oldest : Option Opened → List Opened → List Opened
close_oldest none opened = opened
close_oldest (some (path, used)) opened = close path opened

-- Room for one more file.
unfoldable pub make_room : ℕ → List Opened → List Opened
make_room max_opened_files opened =
    if leb max_opened_files (length opened) then close_oldest (oldest opened) opened else opened

-- `write_all_at`, through a handle of a file that is there; what is written before it fails stays.
abbrev pub write_file : Option (List ℕ) → FilePath → ℕ → List ℕ → Files → Files
write_file none path pos bytes files = files
write_file (some file) path pos [] files = files
write_file (some file) path pos (byte ∷ bytes) files =
    put path (overwrite file pos (byte ∷ bytes)) files

unfoldable pub write_all_at : Moment → FilePath → ℕ → List ℕ → Writer → Handled
write_all_at moment path pos bytes w =
    if leb (length bytes) moment.space
    then (record w { files = write_file (w.files path) path pos bytes w.files }, none)
    else (
      record w { files = write_file (w.files path) path pos (take moment.space bytes) w.files },
      some write_failed,
    )

abbrev pub write_unless_empty : Moment → FilePath → ℕ → List ℕ → Writer → Handled
write_unless_empty moment path pos [] w = (w, none)
write_unless_empty moment path pos (byte ∷ bytes) w = write_all_at moment path pos (byte ∷ bytes) w

abbrev pub write_opened : Moment → FilePath → ℕ → List ℕ → Writer → Handled
write_opened moment path pos [] w = (w, none)
write_opened moment path pos (byte ∷ bytes) w =
    write_all_at moment path pos (byte ∷ bytes)
      (record w { opened_files = touch path moment.now w.opened_files })

-- `create_file(true)` and `truncate(false)`.
abbrev pub create_file : Option (List ℕ) → FilePath → Files → Files
create_file none path files = put path [] files
create_file (some file) path files = files

abbrev pub open_file : Moment → FilePath → Writer → Writer
open_file moment path w = record w {
  files = create_file (w.files path) path w.files;
  opened_files = w.opened_files ++ (path, moment.now) ∷ [];
}

abbrev pub with_room : Writer → Writer
with_room w = record w { opened_files = make_room w.max_opened_files w.opened_files }

-- Where the file can be created and opened.
abbrev pub write_new : Bool → Moment → FilePath → ℕ → List ℕ → Writer → Handled
write_new true moment path pos bytes w =
    write_unless_empty moment path pos bytes (open_file moment path w)
write_new false moment path pos bytes w = (w, some open_failed)

unfoldable pub write_to_file : Moment → FilePath → ℕ → List ℕ → Writer → Handled
unfolding write_all_at make_room
write_to_file moment path pos bytes w =
    if is_open path w.opened_files
    then write_opened moment path pos bytes w
    else write_new moment.opens moment path pos bytes (with_room w)

abbrev pub chunk_saved : Chunk → Writer → Writer
chunk_saved chunk w = record w {
  saved_chunks = w.saved_chunks ++ chunk ∷ [];
  downloaded_chunks = w.downloaded_chunks ++ chunk ∷ [];
}

abbrev pub progress_saved : Writer → Writer
progress_saved w = record w {
  saved_progress =
      some (record { total = w.total_chunks_count; current = length w.downloaded_chunks % 2 ^ 32 });
}

abbrev pub end_chunk : Moment → Chunk → Writer → Handled
end_chunk moment chunk w =
    if moment.saves_chunk
    then if moment.saves_progress
      then (progress_saved (chunk_saved chunk w), none)
      else (chunk_saved chunk w, some save_failed)
    else (w, some save_failed)

unfoldable pub handle_chunk_data : Moment → ChunkData → Writer → Handled
unfolding write_to_file
handle_chunk_data moment (file_part path pos bytes) w = write_to_file moment path pos bytes w
handle_chunk_data moment (end_of_chunk chunk) w = end_chunk moment chunk w

abbrev pub close_all_files : Writer → Writer
close_all_files w = record w { opened_files = [] }

abbrev pub after_handled : (Writer → Handled) → Handled → Handled
after_handled rest (w, none) = rest w
after_handled rest (w, some error) = (close_all_files w, some error)

-- `run`, on the messages that are received until all senders are dropped.
unfoldable pub run_writer : List (Moment × ChunkData) → Writer → Handled
unfolding handle_chunk_data
run_writer [] w = (close_all_files w, none)
run_writer ((moment, message) ∷ messages) w =
    if moment.running
    then after_handled (run_writer messages) (handle_chunk_data moment message w)
    else (close_all_files w, none)
