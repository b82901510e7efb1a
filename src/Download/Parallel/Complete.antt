-- ===== src/Download/Parallel/Complete.antt =====
-- The loops of `Downloader::run` and `ClientDownloader::run` (babel/src/download_job.rs) leave no chunk
-- out.
use blockvisor.Common.{
  ℕ, suc, ◌+◌, ◌≤◌, ◌<◌, ◌≡◌, refl, ap, Bool, true, false, Option, none, some, List, [], ◌∷◌, ◌++◌,
  arith, length, length-append,
}
use blockvisor.Archive.{Chunk}
use blockvisor.Upload.Parallel.{pop}
use blockvisor.Upload.Parallel.Indexes.{PopOf, pop-PopOf}
use blockvisor.Download.Parallel.{
  Downloaders, contains, remove, indexes_of, Reply, Launch, goes_on, ends, fails, launch_known,
  launch_chunk, launch_popped, launch_loop,
}
use blockvisor.Download.Parallel.Counts.{count, count-remove, count-snoc, count→contains}
use blockvisor.Download.Parallel.Launched.{UnlessFailed, OnSuccess, launch_loop-success}

-- The chunks of a reply are of indexes that were asked for, none comes twice, and there is one at
-- least.
pub record IsReply (requested : List ℕ) (chunks : List Chunk) : Type 0 where
  pub some_chunk : 0 < length chunks
  pub asked_for : (i : ℕ) → count i (indexes_of chunks) ≤ count i requested

abbrev pub Replies : Reply → Type 0
Replies reply =
    (requested : List ℕ) (chunks : List Chunk)
    → 0 < length requested
    → reply requested ≡ some chunks
    → IsReply requested chunks

-- An index is left or downloaded now as often as `limit` says; the chunks that wait are of indexes that
-- are left; and `running` futures at least are not ended.
pub record Known (limit : ℕ → ℕ) (max_runners running : ℕ) (d : Downloaders) : Type 0 where
  pub runners : d.max_runners ≡ max_runners
  pub all : (i : ℕ) → count i d.chunk_indexes + count i (indexes_of d.futures) ≡ limit i
  pub waiting : (i : ℕ) → count i (indexes_of d.chunks) ≤ count i d.chunk_indexes
  pub enough : running ≤ length d.futures

pub weaken :
    (limit : ℕ → ℕ) (max_runners less running : ℕ) (d : Downloaders)
    → less ≤ running
    → Known limit max_runners running d
    → Known limit max_runners less d
weaken limit max_runners less running d le h = record {
  runners = h.runners;
  all = h.all;
  waiting = h.waiting;
  enough = omega (arith, h.enough);
}

popped-contains :
    (limit : ℕ → ℕ) (max_runners running : ℕ) (d : Downloaders) (rest : List Chunk) (chunk : Chunk)
    → d.chunks ≡ rest ++ chunk ∷ []
    → Known limit max_runners running d
    → contains chunk.index d.chunk_indexes ≡ true
popped-contains limit max_runners running d rest chunk split h =
    count→contains chunk.index d.chunk_indexes (
      ground (
        arith,
        h.waiting chunk.index,
        ap (λ cs. count chunk.index (indexes_of cs)) split,
        count-snoc chunk.index rest chunk,
      ))

-- A chunk that is launched: its index is no longer left, and it is downloaded now.
launched-Known :
    (limit : ℕ → ℕ) (max_runners running : ℕ) (d : Downloaders) (rest : List Chunk) (chunk : Chunk)
    (parts : List Chunk)
    → d.chunks ≡ rest ++ chunk ∷ []
    → Known limit max_runners running d
    → Known limit max_runners (suc running) (record d {
      chunks = rest;
      chunk_indexes = remove chunk.index d.chunk_indexes;
      futures = d.futures ++ chunk ∷ [];
      parts = parts;
    })
launched-Known limit max_runners running d rest chunk parts split h =
    let known = popped-contains limit max_runners running d rest chunk split h in
    record {
      runners = h.runners;
      all = λ i. omega (
        arith,
        h.all i,
        count-snoc i d.futures chunk,
        count-remove i chunk.index d.chunk_indexes known,
      );
      waiting = λ i. omega (
        arith,
        h.waiting i,
        ap (λ cs. count i (indexes_of cs)) split,
        count-snoc i rest chunk,
        count-remove i chunk.index d.chunk_indexes known,
      );
      enough = omega (arith, h.enough, length-append d.futures (chunk ∷ []));
    }

launch_known-Known :
    (limit : ℕ → ℕ) (max_runners running : ℕ) (known saved : Bool) (d : Downloaders)
    (rest : List Chunk) (chunk : Chunk)
    → contains chunk.index d.chunk_indexes ≡ known
    → d.chunks ≡ rest ++ chunk ∷ []
    → Known limit max_runners running d
    → UnlessFailed (Known limit max_runners (suc running)) (launch_known known saved d rest chunk)
launch_known-Known limit max_runners running true true d rest chunk e split h =
    launched-Known limit max_runners running d rest chunk (d.parts ++ chunk ∷ []) split h
launch_known-Known limit max_runners running true false d rest chunk e split h = tt
launch_known-Known limit max_runners running false saved d rest chunk e split h =
    let known = popped-contains limit max_runners running d rest chunk split h in
    absurd (ground (arith, known, e))

pub launch_chunk-Known :
    (limit : ℕ → ℕ) (max_runners running : ℕ) (for_client : Bool) (saves : Chunk → Bool)
    (d : Downloaders) (rest : List Chunk) (chunk : Chunk)
    → d.chunks ≡ rest ++ chunk ∷ []
    → Known limit max_runners running d
    → UnlessFailed
        (Known limit max_runners (suc running))
        (launch_chunk for_client saves d rest chunk)
launch_chunk-Known limit max_runners running true saves d rest chunk split h =
    launched-Known limit max_runners running d rest chunk d.parts split h
launch_chunk-Known limit max_runners running false saves d rest chunk split h =
    launch_known-Known limit max_runners running (contains chunk.index d.chunk_indexes)
      (saves chunk) d rest chunk refl split h

-- A reached end of the loop launches nothing.
weaken_launch :
    (limit : ℕ → ℕ) (max_runners running : ℕ) (launch : Launch)
    → UnlessFailed (Known limit max_runners (suc running)) launch
    → UnlessFailed (Known limit max_runners running) launch
weaken_launch limit max_runners running (goes_on d) h =
    weaken limit max_runners running (suc running) d (omega arith) h
weaken_launch limit max_runners running (ends d) h =
    weaken limit max_runners running (suc running) d (omega arith) h
weaken_launch limit max_runners running (fails d) h = tt

launch_popped-Known :
    (limit : ℕ → ℕ) (max_runners running : ℕ) (saves : Chunk → Bool) (d : Downloaders)
    (popped : Option (List Chunk × Chunk))
    → PopOf d.chunks popped
    → Known limit max_runners running d
    → UnlessFailed (Known limit max_runners running) (launch_popped saves d popped)
launch_popped-Known limit max_runners running saves d none split h = h
launch_popped-Known limit max_runners running saves d (some (rest, chunk)) split h =
    weaken_launch limit max_runners running (launch_chunk d.for_client saves d rest chunk)
      (launch_chunk-Known limit max_runners running d.for_client saves d rest chunk split h)

pub launch_loop-Known :
    (limit : ℕ → ℕ) (max_runners running fuel : ℕ) (saves : Chunk → Bool) (d : Downloaders)
    → Known limit max_runners running d
    → OnSuccess (Known limit max_runners running) (launch_loop fuel saves d)
launch_loop-Known limit max_runners running fuel saves d h =
    launch_loop-success (Known limit max_runners running) fuel saves d
      (λ d' h' room.
        launch_popped-Known limit max_runners running saves d' (pop d'.chunks) (pop-PopOf d'.chunks)
          h')
      h
