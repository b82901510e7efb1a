-- ===== src/Upload/Parallel.antt =====
-- `ParallelChunkUploaders`, and the loop of `Uploader::run`, of babel/src/upload_job.rs, with
-- `RunnersState` of babel/src/jobs.rs: chunks wait, are uploaded a few at a time, and are marked in
-- the blueprint. A future is the chunk that its task uploads; which one ends next, and how, is given.
use blockvisor.Common.{
  ℕ, zero, suc, ◌+◌, min, Bool, true, false, not, ◌||◌, Option, none, some, List, [], ◌∷◌, ◌++◌,
  ltb, ◌==◌, if◌then◌else◌, length, retain,
}
use Prim.Native.String.{String}
use mathlib.Core.Option
use blockvisor.Archive.{Chunk, Checksum, Slot}
use blockvisor.Upload.Slots.{assign_slots}
pub mod Indexes
pub mod Marked
pub mod Complete
pub mod Ended

pub record Uploaders : Type 0 where
  pub max_runners : ℕ
  pub chunks : List Chunk
  pub futures : List Chunk

abbrev pub new_uploaders : ℕ → ℕ → List Chunk → Uploaders
new_uploaders max_runners max_opened_files chunks = record {
  max_runners = min max_runners max_opened_files;
  chunks = retain (λ (chunk : Chunk). chunk.size == 0) chunks;
  futures = [];
}

abbrev pub after_first : Chunk → Option (List Chunk × Chunk) → Option (List Chunk × Chunk)
after_first chunk none = some ([], chunk)
after_first chunk (some (chunks, last)) = some (chunk ∷ chunks, last)

-- `Vec::pop`.
abbrev pub pop : List Chunk → Option (List Chunk × Chunk)
pop [] = none
pop (chunk ∷ chunks) = after_first chunk (pop chunks)

abbrev pub needs_url : Option (List Chunk × Chunk) → Bool
needs_url none = false
needs_url (some (chunks, last)) = elim last.url [ none ↦ true | some url ↦ false ]

-- `update_slots`, where the store's reply may be an error.
abbrev pub with_reply : Uploaders → Option (List Slot) → Option Uploaders
with_reply u none = none
with_reply u (some slots) = some (record u { chunks = assign_slots u.chunks slots })

unfoldable pub update_slots : Option (List Slot) → Uploaders → Option Uploaders
update_slots reply u = if needs_url (pop u.chunks) then with_reply u reply else some u

abbrev pub launch_popped : ℕ → List Chunk → List Chunk → Option (List Chunk × Chunk) → Uploaders
launch_popped max_runners chunks futures none = record {
  max_runners = max_runners;
  chunks = chunks;
  futures = futures;
}
launch_popped max_runners chunks futures (some (rest, last)) = record {
  max_runners = max_runners;
  chunks = rest;
  futures = futures ++ last ∷ [];
}

-- `launch_more`, on fuel: each round takes a chunk.
unfoldable pub launch_loop : ℕ → Uploaders → Uploaders
launch_loop zero u = u
launch_loop (suc fuel) u = elim (ltb (length u.futures) u.max_runners) [
  | false ↦ u
  | true ↦ launch_loop fuel (launch_popped u.max_runners u.chunks u.futures (pop u.chunks))
]

unfoldable pub launch_more : Uploaders → Uploaders
unfolding launch_loop
launch_more u = launch_loop (length u.chunks) u

-- What a successful `upload_chunk` makes of the chunk.
abbrev pub uploaded_chunk : Chunk → Checksum → ℕ → Chunk
uploaded_chunk chunk checksum size = record chunk { checksum = checksum; size = size; url = none }

abbrev pub mark_item : Bool → Chunk → Chunk → List Chunk → Option (List Chunk) → Option (List Chunk)
mark_item true chunk item items rest = some (chunk ∷ items)
mark_item false chunk item items none = none
mark_item false chunk item items (some marked) = some (item ∷ marked)

-- `mark_uploaded`: an error where the index is not in the manifest.
abbrev pub mark_uploaded : Chunk → List Chunk → Option (List Chunk)
mark_uploaded chunk [] = none
mark_uploaded chunk (item ∷ items) =
    mark_item (item.index == chunk.index) chunk item items (mark_uploaded chunk items)

-- The state of the loop: the blueprint's chunks, the chunks in the log file, and whether an error has
-- stopped the uploaders.
pub record UploadState : Type 0 where
  pub uploaders : Uploaders
  pub blueprint : List Chunk
  pub saved : List Chunk
  pub failed : Bool

abbrev pub launch_updated : UploadState → Option Uploaders → UploadState
launch_updated st none = record st { failed = true }
launch_updated st (some u) = record st { uploaders = launch_more u }

abbrev pub prepare_unless : Bool → Option (List Slot) → UploadState → UploadState
prepare_unless true reply st = st
prepare_unless false reply st = launch_updated st (update_slots reply st.uploaders)

-- The first part of a round; an error has stopped the uploaders.
unfoldable pub prepare : Option (List Slot) → UploadState → UploadState
prepare reply st = prepare_unless st.failed reply st

abbrev pub remove_at : ℕ → List Chunk → List Chunk
remove_at i [] = []
remove_at zero (chunk ∷ chunks) = chunks
remove_at (suc i) (chunk ∷ chunks) = chunk ∷ remove_at i chunks

abbrev pub without_future : ℕ → UploadState → UploadState
without_future i st = record st {
  uploaders = record st.uploaders { futures = remove_at i st.uploaders.futures };
}

-- Whether the chunk and then the progress can be written.
pub record Writes : Type 0 where
  pub chunk : Bool
  pub progress : Bool

abbrev pub set_marked : Bool → UploadState → Option (List Chunk) → UploadState
set_marked progress st none = record st { failed = true }
set_marked progress st (some items) = record st {
  blueprint = items;
  failed = st.failed || not progress;
}

abbrev pub save_uploaded : Writes → Chunk → UploadState → UploadState
save_uploaded writes chunk st =
    if writes.chunk
    then set_marked writes.progress (record st { saved = st.saved ++ chunk ∷ [] })
        (mark_uploaded chunk st.blueprint)
    else record st { failed = true }

-- The second part of a round: the future at `i` has ended.
unfoldable pub receive : ℕ → Writes → Option Chunk → UploadState → UploadState
receive i writes none st = record (without_future i st) { failed = true }
receive i writes (some chunk) st = save_uploaded writes chunk (without_future i st)

-- The state in which the loop begins: `blueprint` is marked with the chunks in the log file.
abbrev pub first_state : ℕ → ℕ → List Chunk → List Chunk → UploadState
first_state max_runners max_opened_files blueprint saved = record {
  uploaders = new_uploaders max_runners max_opened_files blueprint;
  blueprint = blueprint;
  saved = saved;
  failed = false;
}
