-- ===== src/Examples/Download.antt =====
-- A chunk that is downloaded and written into files, and downloads that are scheduled: the theorems on
-- babel/src/download_job.rs at concrete inputs.
use blockvisor.Common.{
  ℕ, ◌+◌, ◌*◌, ◌≤◌, ◌≡◌, refl, ap, ◌≢◌, true, false, none, List, [], ◌∷◌, map, arith, ◌==◌, length,
  All,
}
use blockvisor.Archive.Bytes.{Location, locations}
use blockvisor.Archive.Files.{Files}
use blockvisor.Coder.{no_coder}
use blockvisor.Download.{ChunkData, file_part, end_of_chunk}
use blockvisor.Download.Parts.{download_chunk}
use blockvisor.Download.Writer.{Writer, Moment, run_writer, new_writer, handle_chunk_data}
use blockvisor.Download.Writer.Step.{Smooth, replay}
use blockvisor.Download.Writer.Refines.{messages_of, RunsTo, run_writer-refines}
use blockvisor.Download.Writer.Bytes.{AllDifferent}
use blockvisor.Download.Writer.Bounded.{unchanged, handled, Becomes-opened_files}
use blockvisor.Roundtrip.Stored.{SameAt, stored-uploaded}
use blockvisor.Examples.Transfer.{
  path_a, path_b, two_parts, same_files, two_parts-IsStored, not_empty, a_chunk, a_config, a_server,
  all_bytes, keeps_running, served,
}

-- A moment without an error of the system.
abbrev good_moment : ℕ → Moment
good_moment space = record {
  running = true;
  now = 7;
  opens = true;
  space = space;
  saves_chunk = true;
  saves_progress = true;
}

abbrev smoothly : ChunkData → Moment × ChunkData
smoothly (file_part path pos bytes) = (good_moment (length bytes), file_part path pos bytes)
smoothly (end_of_chunk chunk) = (good_moment 0, end_of_chunk chunk)

smoothly-Smooth : (messages : List ChunkData) → All Smooth (map smoothly messages)
smoothly-Smooth [] = tt
smoothly-Smooth (file_part path pos bytes ∷ messages) =
    ((refl, refl, omega arith), smoothly-Smooth messages)
smoothly-Smooth (end_of_chunk chunk ∷ messages) = ((refl, refl, refl), smoothly-Smooth messages)

messages_of-smoothly : (messages : List ChunkData) → messages_of (map smoothly messages) ≡ messages
messages_of-smoothly [] = refl
messages_of-smoothly (file_part path pos bytes ∷ messages) =
    ap (◌∷◌ (file_part path pos bytes)) (messages_of-smoothly messages)
messages_of-smoothly (end_of_chunk chunk ∷ messages) =
    ap (◌∷◌ (end_of_chunk chunk)) (messages_of-smoothly messages)

abbrev code : Location → ℕ
code (path, pos) = length path * 10 + pos

differ : (a b : Location) → (code a == code b) ≡ false → a ≢ b
differ a b h e = ground (arith, ap code e)

two_parts-AllDifferent : AllDifferent (locations two_parts)
two_parts-AllDifferent = (
  (
    differ (path_a, 1) (path_a, 2) refl,
    (
      differ (path_a, 1) (path_a, 3) refl,
      (differ (path_a, 1) (path_b, 0) refl, (differ (path_a, 1) (path_b, 1) refl, tt)),
    ),
  ),
  (
    (
      differ (path_a, 2) (path_a, 3) refl,
      (differ (path_a, 2) (path_b, 0) refl, (differ (path_a, 2) (path_b, 1) refl, tt)),
    ),
    (
      (differ (path_a, 3) (path_b, 0) refl, (differ (path_a, 3) (path_b, 1) refl, tt)),
      ((differ (path_b, 0) (path_b, 1) refl, tt), (tt, tt)),
    ),
  ),
)

abbrev no_files : Files
no_files path = none

abbrev sent_messages : List (Moment × ChunkData)
sent_messages =
    map smoothly (download_chunk a_server all_bytes no_coder a_config keeps_running a_chunk).0

stored-uploaded_example :
    (w : Writer) × (run_writer sent_messages (new_writer no_files 1 1 [] []) ≡ (w, none))
    × SameAt same_files w.files (locations two_parts)
stored-uploaded_example =
    stored-uploaded same_files no_files a_server all_bytes a_config keeps_running a_chunk 1 1
      sent_messages not_empty two_parts-IsStored refl refl (omega arith) (λ pos. refl) served
      two_parts-AllDifferent
      (messages_of-smoothly
        (download_chunk a_server all_bytes no_coder a_config keeps_running a_chunk).0)
      (smoothly-Smooth
        (download_chunk a_server all_bytes no_coder a_config keeps_running a_chunk).0)

-- Two files, of which one at a time may be open.
abbrev some_parts : List ChunkData
some_parts =
    file_part path_a 1 (5 ∷ 6 ∷ [])
    ∷ file_part path_b 0 (7 ∷ [])
    ∷ file_part path_a 0 (8 ∷ [])
    ∷ end_of_chunk a_chunk
    ∷ []

run_writer-refines_example :
    RunsTo
      (replay (messages_of (map smoothly some_parts)) same_files)
      (a_chunk ∷ [])
      (a_chunk ∷ [])
      (run_writer (map smoothly some_parts) (new_writer same_files 1 1 [] []))
run_writer-refines_example =
    run_writer-refines same_files 1 1 [] [] (map smoothly some_parts) (smoothly-Smooth some_parts)

abbrev after_part : Writer
after_part =
    (handle_chunk_data (good_moment 2) (file_part path_a 1 (5 ∷ 6 ∷ []))
      (new_writer no_files 1 1 [] [])).0

Becomes-opened_files_example : length after_part.opened_files ≤ 1
Becomes-opened_files_example =
    Becomes-opened_files no_files 1 1 [] []
      (handled (good_moment 2) (file_part path_a 1 (5 ∷ 6 ∷ [])) unchanged)
