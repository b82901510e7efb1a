-- ===== src/Download/Parallel/Launched.antt =====
-- What the loop of `launch_more` (babel/src/download_job.rs) keeps, from what each of its rounds keeps.
use blockvisor.Common.{
  ℕ, zero, suc, ◌<◌, inl, inr, Bool, true, false, ltb, length, Bool-cases, ltb→lt,
}
use blockvisor.Archive.{Chunk}
use blockvisor.Upload.Parallel.{pop}
use blockvisor.Download.Parallel.{
  Downloaders, Launch, goes_on, ends, fails, Launched, launch_popped, after_launch, launch_loop,
}

-- The property holds of what there is afterwards, also after an error.
abbrev pub Every : (Downloaders → Type 0) → Launch → Type 0
Every P (goes_on d) = P d
Every P (ends d) = P d
Every P (fails d) = P d

-- The property holds of what there is afterwards where there was no error.
abbrev pub OnSuccess : (Downloaders → Type 0) → Launched → Type 0
OnSuccess P (d, true) = P d
OnSuccess P (d, false) = Unit {0}

abbrev pub UnlessFailed : (Downloaders → Type 0) → Launch → Type 0
UnlessFailed P (goes_on d) = P d
UnlessFailed P (ends d) = P d
UnlessFailed P (fails d) = Unit {0}

abbrev pub Keeps :
    (Chunk → Bool) → (Downloaders → Type 0) → ((Downloaders → Type 0) → Launch → Type 0) → Type 0
Keeps saves P Q =
    (d : Downloaders)
    → P d
    → length d.futures < d.max_runners
    → Q P (launch_popped saves d (pop d.chunks))

module _ (P : Downloaders → Type 0) where
  after_launch-every :
      (rest : Downloaders → Launched) (launch : Launch)
      → ((d : Downloaders) → P d → P (rest d).0)
      → Every P launch
      → P (after_launch rest launch).0
  after_launch-every rest (goes_on d) continues h = continues d h
  after_launch-every rest (ends d) continues h = h
  after_launch-every rest (fails d) continues h = h

  pub after_launch-success :
      (rest : Downloaders → Launched) (launch : Launch)
      → ((d : Downloaders) → P d → OnSuccess P (rest d))
      → UnlessFailed P launch
      → OnSuccess P (after_launch rest launch)
  after_launch-success rest (goes_on d) continues h = continues d h
  after_launch-success rest (ends d) continues h = h
  after_launch-success rest (fails d) continues h = tt

  pub launch_loop-every :
      (fuel : ℕ) (saves : Chunk → Bool) (d : Downloaders)
      → Keeps saves P Every
      → P d
      → P (launch_loop fuel saves d).0
  unfolding launch_loop
  launch_loop-every zero saves d keeps h = h
  launch_loop-every (suc fuel) saves d keeps h =
      elim (Bool-cases (ltb (length d.futures) d.max_runners)) [
        | inr e ↦ rw e h
        | inl e ↦ rw e (
            after_launch-every (launch_loop fuel saves) (launch_popped saves d (pop d.chunks))
              (λ d' h'. launch_loop-every fuel saves d' keeps h')
              (keeps d h (ltb→lt (length d.futures) d.max_runners e)))
      ]

  pub launch_loop-success :
      (fuel : ℕ) (saves : Chunk → Bool) (d : Downloaders)
      → Keeps saves P UnlessFailed
      → P d
      → OnSuccess P (launch_loop fuel saves d)
  unfolding launch_loop
  launch_loop-success zero saves d keeps h = h
  launch_loop-success (suc fuel) saves d keeps h =
      elim (Bool-cases (ltb (length d.futures) d.max_runners)) [
        | inr e ↦ rw e h
        | inl e ↦ rw e (
            after_launch-success (launch_loop fuel saves) (launch_popped saves d (pop d.chunks))
              (λ d' h'. launch_loop-success fuel saves d' keeps h')
              (keeps d h (ltb→lt (length d.futures) d.max_runners e)))
      ]
