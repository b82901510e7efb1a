-- ===== src/Download/Parallel.antt =====
-- `ParallelChunkDownloaders` and `ClientChunkDownloaders`, and the loops of `Downloader::run` and
-- `ClientDownloader::run`, of babel/src/download_job.rs, with `RunnersState` of babel/src/jobs.rs: the
-- indexes of chunks are asked for, their chunks are launched a few at a time, and end. A set of
-- indexes is a list; a future is the chunk that its task downloads, and which one ends next, and how,
-- is given, as are the replies of the engine, and whether a chunk can be saved.
use blockvisor.Common.{
  ℕ, zero, suc, ◌+◌, min, ◌≡◌, Bool, true, false, not, ◌||◌, Option, none, some, List, [], ◌∷◌,
  ◌++◌, map, ltb, ◌==◌, if◌then◌else◌, length, get_elem?, is_empty, retain, take,
}
use blockvisor.Archive.{Chunk}
use blockvisor.Upload.Parallel.{pop, remove_at}
pub mod Counts
pub mod Launched
pub mod Once
pub mod Complete
pub mod Settled
pub mod Ended

abbrev pub contains : ℕ → List ℕ → Bool
contains i [] = false
contains i (index ∷ indexes) = (index == i) || contains i indexes

abbrev pub remove : ℕ → List ℕ → List ℕ
remove i [] = []
remove i (index ∷ indexes) = if index == i then indexes else index ∷ remove i indexes

-- `0..count`, as it is collected.
abbrev pub indexes_below : ℕ → List ℕ
indexes_below zero = []
indexes_below (suc n) = indexes_below n ++ n ∷ []

abbrev pub indexes_of : List Chunk → List ℕ
indexes_of chunks = map (λ (chunk : Chunk). chunk.index) chunks

-- `parts` are the chunks in the parts file.
pub record Downloaders : Type 0 where
  pub for_client : Bool
  pub max_runners : ℕ
  pub chunk_indexes : List ℕ
  pub chunks : List Chunk
  pub futures : List Chunk
  pub parts : List Chunk

abbrev pub indexes_left : ℕ → List ℕ → List ℕ
indexes_left total_chunks_count downloaded =
    retain (λ (index : ℕ). not (contains index downloaded)) (indexes_below total_chunks_count)

abbrev pub new_downloaders : ℕ → ℕ → List ℕ → List Chunk → Downloaders
new_downloaders max_runners total_chunks_count downloaded_indexes parts = record {
  for_client = false;
  max_runners = max_runners;
  chunk_indexes = indexes_left total_chunks_count downloaded_indexes;
  chunks = [];
  futures = [];
  parts = parts;
}

abbrev pub new_client_downloaders : ℕ → ℕ → ℕ → List ℕ → Downloaders
new_client_downloaders max_runners max_opened_files chunks_count downloaded_indexes = record {
  for_client = true;
  max_runners = min max_runners max_opened_files;
  chunk_indexes = indexes_left chunks_count downloaded_indexes;
  chunks = [];
  futures = [];
  parts = [];
}

-- What the engine replies for indexes; `none` where it fails also after retries.
abbrev pub Reply : Type 0
Reply = List ℕ → Option (List Chunk)

abbrev pub with_chunks : Downloaders → Option (List Chunk) → Option Downloaders
with_chunks d none = none
with_chunks d (some chunks) = some (record d { chunks = chunks })

abbrev pub fetch_chunks : Reply → Downloaders → Option Downloaders
fetch_chunks reply d =
    if is_empty d.chunks then with_chunks d (reply (take d.max_runners d.chunk_indexes)) else some d

-- What a round of the loop of `launch_more` does: it goes on, or the loop ends, with an error or
-- without one.
pub data Launch : Type 0 where
  goes_on : Downloaders → Launch
  ends : Downloaders → Launch
  fails : Downloaders → Launch

abbrev pub launch_saved : Bool → Downloaders → List Chunk → Chunk → Launch
launch_saved true d rest chunk = goes_on (record d {
  chunks = rest;
  chunk_indexes = remove chunk.index d.chunk_indexes;
  futures = d.futures ++ chunk ∷ [];
  parts = d.parts ++ chunk ∷ [];
})
launch_saved false d rest chunk =
    fails (record d { chunks = rest; chunk_indexes = remove chunk.index d.chunk_indexes })

-- `skip already downloaded chunks`.
abbrev pub launch_known : Bool → Bool → Downloaders → List Chunk → Chunk → Launch
launch_known true saves d rest chunk = launch_saved saves d rest chunk
launch_known false saves d rest chunk = goes_on (record d { chunks = rest })

abbrev pub launch_client_chunk : Downloaders → List Chunk → Chunk → Launch
launch_client_chunk d rest chunk = goes_on (record d {
  chunks = rest;
  chunk_indexes = remove chunk.index d.chunk_indexes;
  futures = d.futures ++ chunk ∷ [];
})

abbrev pub launch_chunk : Bool → (Chunk → Bool) → Downloaders → List Chunk → Chunk → Launch
launch_chunk true saves d rest chunk = launch_client_chunk d rest chunk
launch_chunk false saves d rest chunk =
    launch_known (contains chunk.index d.chunk_indexes) (saves chunk) d rest chunk

abbrev pub launch_popped : (Chunk → Bool) → Downloaders → Option (List Chunk × Chunk) → Launch
launch_popped saves d none = ends d
launch_popped saves d (some (rest, chunk)) = launch_chunk d.for_client saves d rest chunk

-- The downloaders, and whether there was no error.
abbrev pub Launched : Type 0
Launched = Downloaders × Bool

abbrev pub after_launch : (Downloaders → Launched) → Launch → Launched
after_launch rest (goes_on d) = rest d
after_launch rest (ends d) = (d, true)
after_launch rest (fails d) = (d, false)

-- The loop, on fuel: each round takes a chunk.
unfoldable pub launch_loop : ℕ → (Chunk → Bool) → Downloaders → Launched
launch_loop zero saves d = (d, true)
launch_loop (suc fuel) saves d =
    if ltb (length d.futures) d.max_runners
    then after_launch (launch_loop fuel saves) (launch_popped saves d (pop d.chunks))
    else (d, true)

abbrev pub launch_fetched : (Chunk → Bool) → Downloaders → Option Downloaders → Launched
launch_fetched saves old none = (old, false)
launch_fetched saves old (some d) = launch_loop (length d.chunks) saves d

unfoldable pub launch_more : Reply → (Chunk → Bool) → Downloaders → Launched
launch_more reply saves d =
    if is_empty d.chunk_indexes then (d, true) else launch_fetched saves d (fetch_chunks reply d)

-- The state of the loop of `run`: the chunks whose futures have ended without an error, whether an
-- error has been handled, and whether the run flag has been unset from outside.
pub record DownloadState : Type 0 where
  pub downloaders : Downloaders
  pub finished : List Chunk
  pub failed : Bool
  pub stopped : Bool

abbrev pub launched_state : DownloadState → Launched → DownloadState
launched_state st (d, ok) = record st { downloaders = d; failed = st.failed || not ok }

abbrev pub prepare_unless : Bool → Reply → (Chunk → Bool) → DownloadState → DownloadState
prepare_unless true reply saves st = st
prepare_unless false reply saves st = launched_state st (launch_more reply saves st.downloaders)

-- The first part of a round, where the flag is still set.
unfoldable pub prepare : Reply → (Chunk → Bool) → DownloadState → DownloadState
prepare reply saves st = prepare_unless (st.failed || st.stopped) reply saves st

abbrev pub without_future : ℕ → DownloadState → DownloadState
without_future i st = record st {
  downloaders = record st.downloaders { futures = remove_at i st.downloaders.futures };
}

-- The second part: the future at `i`, which downloads `chunk`, has ended.
unfoldable pub receive : ℕ → Chunk → Bool → DownloadState → DownloadState
receive i chunk true st = record (without_future i st) { finished = st.finished ++ chunk ∷ [] }
receive i chunk false st = record (without_future i st) { failed = true }

abbrev pub first_state : Downloaders → DownloadState
first_state d = record { downloaders = d; finished = []; failed = false; stopped = false }

-- A round of the loop, where the engine replies as is allowed.
pub data Round (Allowed : Reply → Type 0) (st : DownloadState) : DownloadState → Type 0 where
  round :
      (reply : Reply) (saves : Chunk → Bool) (i : ℕ) (chunk : Chunk) (succeeds : Bool)
      → Allowed reply
      → get_elem? (prepare reply saves st).downloaders.futures i ≡ some chunk
      → Round Allowed st (receive i chunk succeeds (prepare reply saves st))
  -- An error of the writer, or a request to stop.
  interrupted : Round Allowed st (record st { stopped = true })

pub data Rounds (Allowed : Reply → Type 0) (first : DownloadState) : DownloadState → Type 0 where
  no_round : Rounds Allowed first first
  more :
      {st st' : DownloadState}
      → Rounds Allowed first st
      → Round Allowed st st'
      → Rounds Allowed first st'
