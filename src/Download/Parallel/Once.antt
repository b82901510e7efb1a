-- ===== src/Download/Parallel/Once.antt =====
-- `ParallelChunkDownloaders` (babel/src/download_job.rs) launches no chunk twice, and few at a time.
use blockvisor.Common.{
  ℕ, zero, suc, ◌+◌, ◌-◌, get_elem?, ◌≤◌, ◌<◌, ◌≡◌, refl, sym, subst, inl, inr, Bool, true, false,
  ◌||◌, Option, none, some, List, [], ◌∷◌, arith, length, is_empty, Bool-cases, length-append, take,
}
use blockvisor.Archive.{Chunk}
use blockvisor.Upload.Parallel.{pop, remove_at}
use blockvisor.Download.Parallel.{
  Downloaders, contains, indexes_of, new_downloaders, Reply, with_chunks, launch_saved,
  launch_known, launch_chunk, launch_popped, launch_loop, launch_fetched, launch_more, Launched,
  launched_state, DownloadState, prepare_unless, prepare, receive, first_state, round, interrupted,
  Rounds, no_round, more,
}
use blockvisor.Download.Parallel.Counts.{
  count, count-remove, count-remove_at, count-snoc, due, count-indexes_left,
}
use blockvisor.Download.Parallel.Launched.{Every, launch_loop-every}

-- An index is in the parts file or left at most as often as `limit` says, and is downloaded now or left
-- at most as often as `left` says.
pub record Limited (limit left : ℕ → ℕ) (max_runners : ℕ) (d : Downloaders) : Type 0 where
  pub whole : d.for_client ≡ false
  pub runners : d.max_runners ≡ max_runners
  pub few : length d.futures ≤ d.max_runners
  pub at_most : (i : ℕ) → count i (indexes_of d.parts) + count i d.chunk_indexes ≤ limit i
  pub running : (i : ℕ) → count i (indexes_of d.futures) + count i d.chunk_indexes ≤ left i

module _ (limit left : ℕ → ℕ) (max_runners : ℕ) where
  launch_saved-Limited :
      (saved : Bool) (d : Downloaders) (rest : List Chunk) (chunk : Chunk)
      → contains chunk.index d.chunk_indexes ≡ true
      → length d.futures < d.max_runners
      → Limited limit left max_runners d
      → Every (Limited limit left max_runners) (launch_saved saved d rest chunk)
  launch_saved-Limited true d rest chunk known room h = record {
    whole = h.whole;
    runners = h.runners;
    few = omega (arith, length-append d.futures (chunk ∷ []));
    at_most = λ i. omega (
      arith,
      h.at_most i,
      count-snoc i d.parts chunk,
      count-remove i chunk.index d.chunk_indexes known,
    );
    running = λ i. omega (
      arith,
      h.running i,
      count-snoc i d.futures chunk,
      count-remove i chunk.index d.chunk_indexes known,
    );
  }
  launch_saved-Limited false d rest chunk known room h = record {
    whole = h.whole;
    runners = h.runners;
    few = h.few;
    at_most = λ i. omega (arith, h.at_most i, count-remove i chunk.index d.chunk_indexes known);
    running = λ i. omega (arith, h.running i, count-remove i chunk.index d.chunk_indexes known);
  }

  launch_known-Limited :
      (known saved : Bool) (d : Downloaders) (rest : List Chunk) (chunk : Chunk)
      → contains chunk.index d.chunk_indexes ≡ known
      → length d.futures < d.max_runners
      → Limited limit left max_runners d
      → Every (Limited limit left max_runners) (launch_known known saved d rest chunk)
  launch_known-Limited true saved d rest chunk known room h =
      launch_saved-Limited saved d rest chunk known room h
  launch_known-Limited false saved d rest chunk known room h = record {
    whole = h.whole;
    runners = h.runners;
    few = h.few;
    at_most = h.at_most;
    running = h.running;
  }

  launch_popped-Limited :
      (saves : Chunk → Bool) (d : Downloaders) (popped : Option (List Chunk × Chunk))
      → length d.futures < d.max_runners
      → Limited limit left max_runners d
      → Every (Limited limit left max_runners) (launch_popped saves d popped)
  launch_popped-Limited saves d none room h = h
  launch_popped-Limited saves d (some (rest, chunk)) room h =
      subst (λ b. Every (Limited limit left max_runners) (launch_chunk b saves d rest chunk))
        (sym h.whole)
        (launch_known-Limited (contains chunk.index d.chunk_indexes) (saves chunk) d rest chunk refl
          room h)

  launch_loop-Limited :
      (fuel : ℕ) (saves : Chunk → Bool) (d : Downloaders)
      → Limited limit left max_runners d
      → Limited limit left max_runners (launch_loop fuel saves d).0
  launch_loop-Limited fuel saves d h =
      launch_loop-every (Limited limit left max_runners) fuel saves d
        (λ d' h' room. launch_popped-Limited saves d' (pop d'.chunks) room h') h

  launch_reply-Limited :
      (saves : Chunk → Bool) (d : Downloaders) (reply : Option (List Chunk))
      → Limited limit left max_runners d
      → Limited limit left max_runners (launch_fetched saves d (with_chunks d reply)).0
  launch_reply-Limited saves d none h = h
  launch_reply-Limited saves d (some chunks) h =
      launch_loop-Limited (length chunks) saves (record d { chunks = chunks })
        (record {
          whole = h.whole;
          runners = h.runners;
          few = h.few;
          at_most = h.at_most;
          running = h.running;
        })

  launch_more-Limited :
      (reply : Reply) (saves : Chunk → Bool) (d : Downloaders)
      → Limited limit left max_runners d
      → Limited limit left max_runners (launch_more reply saves d).0
  unfolding launch_more
  launch_more-Limited reply saves d h = elim (Bool-cases (is_empty d.chunk_indexes)) [
    | inl e ↦ rw e h
    | inr e ↦ elim (Bool-cases (is_empty d.chunks)) [
      | inl f ↦
          rw (e, f) (launch_reply-Limited saves d (reply (take d.max_runners d.chunk_indexes)) h)
      | inr f ↦ rw (e, f) (launch_loop-Limited (length d.chunks) saves d h)
    ]
  ]

-- What may still be downloaded, where what has ended is taken off.
abbrev open_due : (ℕ → ℕ) → DownloadState → ℕ → ℕ
open_due due_times st i = due_times i - count i (indexes_of st.finished)

pub record LimitedState (limit due_times : ℕ → ℕ) (max_runners : ℕ) (st : DownloadState)
    : Type 0 where
  pub limited : Limited limit (open_due due_times st) max_runners st.downloaders
  pub ended : (i : ℕ) → count i (indexes_of st.finished) ≤ due_times i

module _ (limit due_times : ℕ → ℕ) (max_runners : ℕ) where
  launched-LimitedState :
      (st : DownloadState) (launched : Launched)
      → Limited limit (open_due due_times st) max_runners launched.0
      → LimitedState limit due_times max_runners st
      → LimitedState limit due_times max_runners (launched_state st launched)
  launched-LimitedState st (d, true) l h = record { limited = l; ended = h.ended }
  launched-LimitedState st (d, false) l h = record { limited = l; ended = h.ended }

  prepare-LimitedState :
      (halted : Bool) (reply : Reply) (saves : Chunk → Bool) (st : DownloadState)
      → LimitedState limit due_times max_runners st
      → LimitedState limit due_times max_runners (prepare_unless halted reply saves st)
  prepare-LimitedState true reply saves st h = h
  prepare-LimitedState false reply saves st h =
      launched-LimitedState st (launch_more reply saves st.downloaders)
        (launch_more-Limited limit (open_due due_times st) max_runners reply saves st.downloaders
          h.limited)
        h

  length-remove_at : (at : ℕ) (xs : List Chunk) → length (remove_at at xs) ≤ length xs
  length-remove_at at [] = ground arith
  length-remove_at zero (x ∷ xs) = omega arith
  length-remove_at (suc at) (x ∷ xs) = omega (arith, length-remove_at at xs)

  receive-LimitedState :
      (at : ℕ) (chunk : Chunk) (succeeds : Bool) (st : DownloadState)
      → get_elem? st.downloaders.futures at ≡ some chunk
      → LimitedState limit due_times max_runners st
      → LimitedState limit due_times max_runners (receive at chunk succeeds st)
  unfolding receive
  receive-LimitedState at chunk true st found h =
      let l = h.limited in
      let moved = λ (i : ℕ). count-remove_at i at st.downloaders.futures chunk found in
      record {
        limited = record {
          whole = l.whole;
          runners = l.runners;
          few = omega (arith, l.few, length-remove_at at st.downloaders.futures);
          at_most = l.at_most;
          running = λ i. omega (arith, l.running i, moved i, count-snoc i st.finished chunk);
        };
        ended = λ i. omega (arith, l.running i, h.ended i, moved i, count-snoc i st.finished chunk);
      }
  receive-LimitedState at chunk false st found h =
      let l = h.limited in
      record {
        limited = record {
          whole = l.whole;
          runners = l.runners;
          few = omega (arith, l.few, length-remove_at at st.downloaders.futures);
          at_most = l.at_most;
          running = λ i.
              omega (arith, l.running i, count-remove_at i at st.downloaders.futures chunk found);
        };
        ended = h.ended;
      }

  pub Rounds-LimitedState :
      {first st : DownloadState}
      → LimitedState limit due_times max_runners first
      → Rounds (λ reply. Unit {0}) first st
      → LimitedState limit due_times max_runners st
  unfolding prepare
  Rounds-LimitedState h no_round = h
  Rounds-LimitedState h (more {st} before (round reply saves at chunk succeeds allowed found)) =
      receive-LimitedState at chunk succeeds (prepare reply saves st) found (
        prepare-LimitedState (st.failed || st.stopped) reply saves st
          (Rounds-LimitedState h before))
  Rounds-LimitedState h (more before interrupted) =
      let k = Rounds-LimitedState h before in record { limited = k.limited; ended = k.ended }

-- Whatever the engine replies, in whatever order the downloads end, and after errors too: the downloads
-- of an index that run and those that have ended without an error are one at most together, and none
-- where it was downloaded before or is not below the number of chunks. So are the lines of an index
-- that the parts file has in addition to the `parts` that it had. No more than `max_runners` are
-- downloaded at a time.
pub Rounds-once :
    (max_runners total_chunks_count : ℕ) (downloaded : List ℕ) (parts : List Chunk)
    {st : DownloadState}
    → Rounds
        (λ reply. Unit {0})
        (first_state (new_downloaders max_runners total_chunks_count downloaded parts))
        st
    → ((i : ℕ)
        → count i (indexes_of st.downloaders.futures) + count i (indexes_of st.finished)
          ≤ due total_chunks_count downloaded i)
      × ((i : ℕ)
          → count i (indexes_of st.downloaders.parts)
            ≤ count i (indexes_of parts) + due total_chunks_count downloaded i)
      × (length st.downloaders.futures ≤ max_runners)
Rounds-once max_runners total_chunks_count downloaded parts rounds =
    let due_times = due total_chunks_count downloaded in
    let limit : ℕ → ℕ = λ i. count i (indexes_of parts) + due_times i in
    let h =
      Rounds-LimitedState limit due_times max_runners
        (record {
          limited = record {
            whole = refl;
            runners = refl;
            few = omega arith;
            at_most = λ i. omega (arith, count-indexes_left total_chunks_count downloaded i);
            running = λ i. omega (arith, count-indexes_left total_chunks_count downloaded i);
          };
          ended = λ i. omega arith;
        })
        rounds in
    let l = h.limited in
    (
      (λ i. omega (arith, l.running i, h.ended i)),
      (λ i. omega (arith, l.at_most i)),
      omega (arith, l.few, l.runners),
    )
