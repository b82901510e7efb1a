-- ===== src/Examples/Schedule.antt =====
-- A download of two chunks, and what is left of it: the theorems on the scheduling of downloads and on
-- the directory of a job of babel/src/download_job.rs at concrete inputs.
use blockvisor.Common.{
  ℕ, suc, ◌+◌, ◌≤◌, ◌<◌, ◌≡◌, refl, ap, ◌⊎◌, Bool, true, Option, none, some, List, [], ◌∷◌, map,
  arith, length,
}
use blockvisor.Archive.{FilePath, Chunk, sha1, DownloadMetadata}
use blockvisor.Archive.Files.{Files}
use blockvisor.Common.Outcome.{ok, err}
use blockvisor.Download.Parallel.{
  Downloaders, contains, indexes_of, new_downloaders, Reply, launch_loop, launch_more,
  DownloadState, prepare, receive, first_state, round, Rounds, no_round, more,
}
use blockvisor.Download.Parallel.Counts.{count, due}
use blockvisor.Download.Parallel.Once.{Rounds-once}
use blockvisor.Download.Parallel.Complete.{Replies}
use blockvisor.Download.Parallel.Ended.{Rounds-complete}
use blockvisor.Download.Metadata.{
  MetaDir, Engine, chunk_line, invalid_chunk, get_metadata, Removable, cleanup_job,
}
use blockvisor.Download.Metadata.FirstRun.{get_metadata-first_run}
use blockvisor.Download.Metadata.Cleanup.{chunks_name, Without, empty_dir, cleanup_job-removes}

abbrev path_a : FilePath
path_a = (97 ∷ []) ∷ []

abbrev chunk_of : ℕ → Chunk
chunk_of index = record {
  index = index;
  key = "key";
  url = some "url";
  checksum = sha1 [];
  size = 1;
  destinations = record { path = path_a; pos = index; size = 1 } ∷ [];
}

-- The chunk of each index that is asked for.
abbrev replies_all : Reply
replies_all requested = some (map chunk_of requested)

abbrev option_or_nil : Option (List Chunk) → List Chunk
option_or_nil none = []
option_or_nil (some chunks) = chunks

indexes_of-chunks : (xs : List ℕ) → indexes_of (map chunk_of xs) ≡ xs
indexes_of-chunks [] = refl
indexes_of-chunks (x ∷ xs) = ap (◌∷◌ x) (indexes_of-chunks xs)

length-chunks : (xs : List ℕ) → length (map chunk_of xs) ≡ length xs
length-chunks [] = refl
length-chunks (x ∷ xs) = ap suc (length-chunks xs)

replies_all-Replies : Replies replies_all
replies_all-Replies requested chunks asked e =
    let same : map chunk_of requested ≡ chunks = ap option_or_nil e in
    record {
      some_chunk = omega (arith, length-chunks requested, ap length same);
      asked_for = λ i. omega (
        arith,
        ap (count i) (indexes_of-chunks requested),
        ap (λ cs. count i (indexes_of cs)) same,
      );
    }

abbrev saves_all : Chunk → Bool
saves_all chunk = true

-- The chunk of index 1 was downloaded before.
abbrev two_left : Downloaders
two_left = new_downloaders 1 3 (1 ∷ []) []

abbrev after_one : DownloadState
after_one = receive 0 (chunk_of 0) true (prepare replies_all saves_all (first_state two_left))

abbrev after_two : DownloadState
after_two = receive 0 (chunk_of 2) true (prepare replies_all saves_all after_one)

two-Rounds : Rounds Replies (first_state two_left) after_two
unfolding prepare launch_more launch_loop receive
two-Rounds =
    more (more no_round (round replies_all saves_all 0 (chunk_of 0) true replies_all-Replies refl))
      (round replies_all saves_all 0 (chunk_of 2) true replies_all-Replies refl)

any-Rounds : Rounds (λ reply. Unit {0}) (first_state two_left) after_two
unfolding prepare launch_more launch_loop receive
any-Rounds =
    more (more no_round (round replies_all saves_all 0 (chunk_of 0) true tt refl))
      (round replies_all saves_all 0 (chunk_of 2) true tt refl)

Rounds-complete_example :
    (contains 2 (1 ∷ []) ≡ true)
    ⊎ (contains 2 (indexes_of (prepare replies_all saves_all after_two).finished) ≡ true)
unfolding prepare launch_more launch_loop receive
Rounds-complete_example =
    Rounds-complete 3 (1 ∷ []) two_left replies_all saves_all (refl, refl, refl) (omega arith)
      two-Rounds replies_all-Replies refl refl refl 2 (omega arith)

Rounds-once_example :
    ((i : ℕ)
      → count i (indexes_of after_two.downloaders.futures) + count i (indexes_of after_two.finished)
        ≤ due 3 (1 ∷ []) i)
    × ((i : ℕ) → count i (indexes_of after_two.downloaders.parts) ≤ count i [] + due 3 (1 ∷ []) i)
    × (length after_two.downloaders.futures ≤ 1)
Rounds-once_example = Rounds-once 1 3 (1 ∷ []) [] any-Rounds

abbrev metadata_of_two : DownloadMetadata
metadata_of_two = record { total_size = 2; compression = none; chunks = 2; data_version = 3 }

abbrev two_chunks : List Chunk
two_chunks = chunk_of 0 ∷ chunk_of 1 ∷ []

abbrev an_engine : Engine
an_engine = record {
  metadata = some metadata_of_two;
  chunks = λ version count. some two_chunks;
  saves_metadata = true;
  saves_chunks = true;
}

both_there : (i : ℕ) → i < 2 → contains i (indexes_of two_chunks) ≡ true
both_there i h = ground arith

get_metadata-first_run_example :
    ((get_metadata an_engine empty_dir).1 ≡ ok (metadata_of_two, two_chunks))
    × (launch_more replies_all saves_all (new_downloaders 1 2 (indexes_of two_chunks) [])
        ≡ (new_downloaders 1 2 (indexes_of two_chunks) [], true))
    × ((get_metadata an_engine (get_metadata an_engine empty_dir).0).1 ≡ err invalid_chunk)
get_metadata-first_run_example =
    get_metadata-first_run an_engine empty_dir metadata_of_two two_chunks 1 replies_all saves_all
      refl refl refl refl refl both_there

abbrev used_dir : MetaDir
used_dir = record {
  metadata = some metadata_of_two;
  chunks = some (chunk_line (chunk_of 0) ∷ []);
  parts = some (chunk_line (chunk_of 0) ∷ chunk_line (chunk_of 1) ∷ []);
}

abbrev removes_all : FilePath → Bool
removes_all path = true

abbrev all_removable : Removable
all_removable = record { chunks = true; parts = true; metadata = true }

abbrev same_files : Files
same_files path = some (1 ∷ [])

cleanup_job-removes_example :
    (files : Files) × (cleanup_job removes_all all_removable used_dir same_files
      ≡ (empty_dir, files, ok tt))
    × Without (λ path. chunks_name path two_chunks) same_files files
cleanup_job-removes_example =
    cleanup_job-removes removes_all all_removable used_dir two_chunks same_files (λ path. refl) refl
      refl refl refl
