-- ===== src/Download/Parallel/Ended.antt =====
-- The end of the loops of `Downloader::run` and `ClientDownloader::run` (babel/src/download_job.rs).
use blockvisor.Common.{
  ℕ, ◌-◌, ◌<◌, ◌≡◌, refl, ap, ◌⊎◌, inl, inr, Bool, true, false, ◌||◌, some, List, [], arith,
  get_elem?, Bool-cases,
}
use blockvisor.Archive.{Chunk}
use blockvisor.Download.Parallel.{
  Downloaders, contains, indexes_of, indexes_left, Reply, Launched, launch_more, DownloadState,
  launched_state, prepare, receive, first_state, round, interrupted, Rounds, no_round, more,
}
use blockvisor.Download.Parallel.Counts.{
  count, count-snoc, count-remove_at, count→contains, due, count-indexes_left,
}
use blockvisor.Download.Parallel.Launched.{OnSuccess}
use blockvisor.Download.Parallel.Complete.{Replies, Known}
use blockvisor.Download.Parallel.Settled.{Settled, launch_more-Settled}

-- What is due and has not ended.
abbrev open_due : (ℕ → ℕ) → DownloadState → ℕ → ℕ
open_due limit st i = limit i - count i (indexes_of st.finished)

abbrev Going : (ℕ → ℕ) → ℕ → DownloadState → Type 0
Going limit max_runners st =
    st.failed ≡ false → Known (open_due limit st) max_runners 0 st.downloaders

abbrev SettledState : (ℕ → ℕ) → ℕ → DownloadState → Type 0
SettledState limit max_runners st =
    st.failed ≡ false → Settled (open_due limit st) max_runners st.downloaders

launched-Settled :
    (limit : ℕ → ℕ) (max_runners : ℕ) (st : DownloadState) (launched : Launched)
    → OnSuccess (Settled (open_due limit st) max_runners) launched
    → SettledState limit max_runners (launched_state st launched)
launched-Settled limit max_runners st (d, true) h ok = h
launched-Settled limit max_runners st (d, false) h ok = absurd (ground arith)

-- Where the flag is still set, a chunk is downloaded now, or none is left.
prepare-Settled :
    (limit : ℕ → ℕ) (max_runners : ℕ) (reply : Reply) (saves : Chunk → Bool) (st : DownloadState)
    → 0 < max_runners
    → Replies reply
    → st.stopped ≡ false
    → Going limit max_runners st
    → SettledState limit max_runners (prepare reply saves st)
unfolding prepare
prepare-Settled limit max_runners reply saves st some_runner replies runs h =
    elim (Bool-cases (st.failed || st.stopped)) [
      | inl e ↦ rw e (λ ok. absurd (ground (arith, e, runs)))
      | inr e ↦ rw e (
          launched-Settled limit max_runners st (launch_more reply saves st.downloaders) (
            launch_more-Settled (open_due limit st) max_runners reply saves st.downloaders
              some_runner replies (h (ground arith))))
    ]

prepare-Going :
    (limit : ℕ → ℕ) (max_runners : ℕ) (reply : Reply) (saves : Chunk → Bool) (st : DownloadState)
    → 0 < max_runners
    → Replies reply
    → Going limit max_runners st
    → Going limit max_runners (prepare reply saves st)
unfolding prepare
prepare-Going limit max_runners reply saves st some_runner replies h =
    elim (Bool-cases (st.failed || st.stopped)) [
      | inl e ↦ rw e h
      | inr e ↦
          let settled =
            launched-Settled limit max_runners st (launch_more reply saves st.downloaders) (
              launch_more-Settled (open_due limit st) max_runners reply saves st.downloaders
                some_runner replies (h (ground arith))) in
          rw e (λ ok. (settled ok).known)
    ]

receive-Going :
    (limit : ℕ → ℕ) (max_runners at : ℕ) (chunk : Chunk) (succeeds : Bool) (st : DownloadState)
    → get_elem? st.downloaders.futures at ≡ some chunk
    → Going limit max_runners st
    → Going limit max_runners (receive at chunk succeeds st)
unfolding receive
receive-Going limit max_runners at chunk true st found h = λ ok.
    let k = h ok in
    record {
      runners = k.runners;
      all = λ i. omega (
        arith,
        k.all i,
        count-remove_at i at st.downloaders.futures chunk found,
        count-snoc i st.finished chunk,
      );
      waiting = k.waiting;
      enough = omega arith;
    }
receive-Going limit max_runners at chunk false st found h = λ ok. absurd (ground arith)

Rounds-Going :
    (limit : ℕ → ℕ) (max_runners : ℕ) {first st : DownloadState}
    → 0 < max_runners
    → Going limit max_runners first
    → Rounds Replies first st
    → Going limit max_runners st
Rounds-Going limit max_runners some_runner h no_round = h
Rounds-Going limit max_runners some_runner h (more before interrupted) =
    Rounds-Going limit max_runners some_runner h before
Rounds-Going limit max_runners some_runner h
      (more {st} before (round reply saves at chunk succeeds replies found)) =
    receive-Going limit max_runners at chunk succeeds (prepare reply saves st) found (
      prepare-Going limit max_runners reply saves st some_runner replies
        (Rounds-Going limit max_runners some_runner h before))

-- What the constructors of the downloaders make.
abbrev pub IsNew : ℕ → List ℕ → Downloaders → Type 0
IsNew total_chunks_count downloaded d =
    (d.chunk_indexes ≡ indexes_left total_chunks_count downloaded)
    × (d.chunks ≡ [])
    × (d.futures ≡ [])

new-Going :
    (max_runners total_chunks_count : ℕ) (downloaded : List ℕ) (d : Downloaders)
    → d.max_runners ≡ max_runners
    → IsNew total_chunks_count downloaded d
    → Going (due total_chunks_count downloaded) max_runners (first_state d)
new-Going max_runners total_chunks_count downloaded d runners (left, none_waits, none_runs) ok =
    record {
      runners = runners;
      all = λ i. omega (
        arith,
        ap (count i) left,
        ap (λ cs. count i (indexes_of cs)) none_runs,
        count-indexes_left total_chunks_count downloaded i,
      );
      waiting = λ i. omega (arith, ap (λ cs. count i (indexes_of cs)) none_waits);
      enough = omega arith;
    }

-- The loop ends where, after the first part of a round, no future is left. If no error has been
-- handled then and the run flag is still set, each index below the number of chunks was downloaded
-- before, or its download has ended without an error: for both kinds of downloaders, in whatever order
-- the downloads end, if there is a runner at least, and each reply of the engine has a chunk and only
-- chunks that were asked for, none of them twice.
pub Rounds-complete :
    (total_chunks_count : ℕ) (downloaded : List ℕ) (d : Downloaders) {st : DownloadState}
    (reply : Reply) (saves : Chunk → Bool)
    → IsNew total_chunks_count downloaded d
    → 0 < d.max_runners
    → Rounds Replies (first_state d) st
    → Replies reply
    → (prepare reply saves st).downloaders.futures ≡ []
    → (prepare reply saves st).failed ≡ false
    → st.stopped ≡ false
    → (i : ℕ) → i < total_chunks_count
    → (contains i downloaded ≡ true)
      ⊎ (contains i (indexes_of (prepare reply saves st).finished) ≡ true)
Rounds-complete total_chunks_count downloaded d {st} reply saves fresh some_runner rounds replies
      ended ok runs i below =
    let limit = due total_chunks_count downloaded in
    let last = prepare reply saves st in
    let going =
      Rounds-Going limit d.max_runners some_runner
        (new-Going d.max_runners total_chunks_count downloaded d refl fresh) rounds in
    let settled =
      prepare-Settled limit d.max_runners reply saves st some_runner replies runs going ok in
    elim (Bool-cases (contains i downloaded)) [
      | inl e ↦ inl e
      | inr e ↦ inr (
          count→contains i (indexes_of last.finished) (
            ground (
              arith,
              e,
              settled.known.all i,
              ap (count i) (settled.goes_on ended),
              ap (λ cs. count i (indexes_of cs)) ended,
            )))
    ]
