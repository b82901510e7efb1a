-- ===== src/Download/Parallel/Settled.antt =====
-- What the first part of a round of `Downloader::run` (babel/src/download_job.rs) leaves: chunks that
-- are downloaded, or none to be downloaded.
use blockvisor.Common.{
  ℕ, zero, suc, ◌<◌, ◌≡◌, refl, ap, inl, inr, Bool, true, false, Option, none, some, List, [], ◌∷◌,
  arith, length, lt→ltb, is_empty, Bool-cases, take, length-take,
}
use native.Mathlib.Decide.{dec_lt}
use blockvisor.Archive.{Chunk}
use blockvisor.Upload.Parallel.{pop}
use blockvisor.Upload.Parallel.Indexes.{PopOf, pop-PopOf}
use blockvisor.Download.Parallel.{
  Downloaders, Reply, with_chunks, Launched, launch_popped, launch_loop, launch_fetched,
  launch_more,
}
use blockvisor.Download.Parallel.Counts.{count-take}
use blockvisor.Download.Parallel.Launched.{UnlessFailed, OnSuccess, after_launch-success}
use blockvisor.Download.Parallel.Complete.{
  IsReply, Replies, Known, weaken, launch_chunk-Known, launch_loop-Known,
}

first_popped-Known :
    (limit : ℕ → ℕ) (max_runners : ℕ) (saves : Chunk → Bool) (d : Downloaders)
    (popped : Option (List Chunk × Chunk))
    → PopOf d.chunks popped
    → 0 < length d.chunks
    → Known limit max_runners 0 d
    → UnlessFailed (Known limit max_runners 1) (launch_popped saves d popped)
first_popped-Known limit max_runners saves d none split some_chunk h =
    absurd (omega (arith, ap length split))
first_popped-Known limit max_runners saves d (some (rest, chunk)) split some_chunk h =
    launch_chunk-Known limit max_runners 0 d.for_client saves d rest chunk split h

-- A first round of the loop.
first_launch :
    (limit : ℕ → ℕ) (max_runners fuel : ℕ) (saves : Chunk → Bool) (d : Downloaders)
    → 0 < fuel
    → 0 < length d.chunks
    → length d.futures < d.max_runners
    → Known limit max_runners 0 d
    → OnSuccess (Known limit max_runners 1) (launch_loop fuel saves d)
unfolding launch_loop
first_launch limit max_runners zero saves d some_fuel some_chunk room h = absurd (omega arith)
first_launch limit max_runners (suc fuel) saves d some_fuel some_chunk room h =
    rw (lt→ltb (length d.futures) d.max_runners room) (
      after_launch-success (Known limit max_runners 1) (launch_loop fuel saves)
        (launch_popped saves d (pop d.chunks))
        (λ d' h'. launch_loop-Known limit max_runners 1 fuel saves d' h')
        (first_popped-Known limit max_runners saves d (pop d.chunks) (pop-PopOf d.chunks) some_chunk
          h))

start_loop :
    (limit : ℕ → ℕ) (max_runners : ℕ) (saves : Chunk → Bool) (d : Downloaders)
    → 0 < max_runners
    → 0 < length d.chunks
    → Known limit max_runners 0 d
    → OnSuccess (Known limit max_runners 1) (launch_loop (length d.chunks) saves d)
start_loop limit max_runners saves d some_runner some_chunk h = elim (dec_lt 0 (length d.futures)) [
  | yes runs ↦
      launch_loop-Known limit max_runners 1 (length d.chunks) saves d
        (record { runners = h.runners; all = h.all; waiting = h.waiting; enough = omega arith })
  | no idle ↦
      first_launch limit max_runners (length d.chunks) saves d some_chunk some_chunk
        (omega (arith, h.runners)) h
]

-- There is a future, or no index is left.
pub record Settled (limit : ℕ → ℕ) (max_runners : ℕ) (d : Downloaders) : Type 0 where
  pub known : Known limit max_runners 0 d
  pub goes_on : d.futures ≡ [] → d.chunk_indexes ≡ []

settle_prepared :
    (limit : ℕ → ℕ) (max_runners : ℕ) (launched : Launched)
    → OnSuccess (Known limit max_runners 1) launched
    → OnSuccess (Settled limit max_runners) launched
settle_prepared limit max_runners (d, false) h = tt
settle_prepared limit max_runners (d, true) h = record {
  known = weaken limit max_runners 0 1 d (omega arith) h;
  goes_on = λ e. absurd (omega (arith, h.enough, ap length e));
}

fetched-Settled :
    (limit : ℕ → ℕ) (max_runners : ℕ) (saves : Chunk → Bool) (d : Downloaders)
    (answer : Option (List Chunk))
    → 0 < max_runners
    → Known limit max_runners 0 d
    → ((chunks : List Chunk)
        → answer ≡ some chunks
        → IsReply (take d.max_runners d.chunk_indexes) chunks)
    → OnSuccess (Settled limit max_runners) (launch_fetched saves d (with_chunks d answer))
fetched-Settled limit max_runners saves d none some_runner h replied = tt
fetched-Settled limit max_runners saves d (some chunks) some_runner h replied =
    let r = replied chunks refl in
    settle_prepared limit max_runners
      (launch_loop (length chunks) saves (record d { chunks = chunks }))
      (start_loop limit max_runners saves (record d { chunks = chunks }) some_runner r.some_chunk
        (record {
          runners = h.runners;
          all = h.all;
          waiting = λ i. omega (arith, r.asked_for i, count-take i d.max_runners d.chunk_indexes);
          enough = omega arith;
        }))

no_items {ℓ} : {A : Type ℓ} (xs : List A) → is_empty xs ≡ true → xs ≡ []
no_items [] h = refl
no_items (x ∷ xs) h = absurd (ground arith)

some_items {ℓ} : {A : Type ℓ} (xs : List A) → is_empty xs ≡ false → 0 < length xs
some_items [] h = absurd (ground arith)
some_items (x ∷ xs) h = omega arith

pub launch_more-Settled :
    (limit : ℕ → ℕ) (max_runners : ℕ) (reply : Reply) (saves : Chunk → Bool) (d : Downloaders)
    → 0 < max_runners
    → Replies reply
    → Known limit max_runners 0 d
    → OnSuccess (Settled limit max_runners) (launch_more reply saves d)
unfolding launch_more
launch_more-Settled limit max_runners reply saves d some_runner replies h =
    elim (Bool-cases (is_empty d.chunk_indexes)) [
      | inl e ↦ rw e (record { known = h; goes_on = λ idle. no_items d.chunk_indexes e })
      | inr e ↦ elim (Bool-cases (is_empty d.chunks)) [
        | inl f ↦
            let requested = take d.max_runners d.chunk_indexes in
            let asked : 0 < length requested = omega (
              arith,
              length-take d.max_runners d.chunk_indexes,
              some_items d.chunk_indexes e,
              h.runners,
            ) in
            rw (e, f)
              (fetched-Settled limit max_runners saves d (reply requested) some_runner h
                (λ chunks. replies requested chunks asked))
        | inr f ↦
            rw (e, f)
              (settle_prepared limit max_runners (launch_loop (length d.chunks) saves d)
                (start_loop limit max_runners saves d some_runner (some_items d.chunks f) h))
      ]
    ]
