-- ===== src/Upload/Parallel/Ended.antt =====
-- When the loop of `Uploader::run` (babel/src/upload_job.rs) ends without an error, all is uploaded.
use blockvisor.Common.{
  ℕ, zero, suc, ◌≤◌, ◌<◌, ◌≡◌, refl, sym, ap, subst, ◌⊎◌, inl, inr, Bool, true, false, Option, none,
  some, List, [], ◌∷◌, arith, ltb, ◌==◌, length, All, retain, Bool-cases, length-append,
}
use blockvisor.Archive.{Chunk, Slot}
use blockvisor.Upload.Parallel.{
  Uploaders, pop, launch_popped, launch_loop, launch_more, update_slots, launch_updated,
  prepare_unless, prepare, UploadState, first_state,
}
use blockvisor.Upload.Parallel.Indexes.{holds, has, PopOf, pop-PopOf}
use blockvisor.Upload.Parallel.Marked.{indexes, Distinct}
use blockvisor.Upload.Parallel.Complete.{IsUploaded, Rounds, Inv, All-map, Rounds-Inv, prepare-Inv}

-- No chunk waits, or there are as many uploads as there may be.
abbrev IsFull : Uploaders → Type 0
IsFull u = (u.chunks ≡ []) ⊎ (u.max_runners ≤ length u.futures)

no_chunks : (chunks : List Chunk) → length chunks ≤ 0 → chunks ≡ []
no_chunks [] h = refl
no_chunks (c ∷ cs) h = absurd (omega arith)

popped-shorter :
    (fuel max_runners : ℕ) (chunks futures : List Chunk) (popped : Option (List Chunk × Chunk))
    → PopOf chunks popped
    → length chunks ≤ suc fuel
    → length (launch_popped max_runners chunks futures popped).chunks ≤ fuel
popped-shorter fuel max_runners chunks futures none e h = omega (arith, ap length e)
popped-shorter fuel max_runners chunks futures (some (rest, last)) e h =
    omega (arith, ap length e, length-append rest (last ∷ []))

launch_loop-IsFull :
    (fuel : ℕ) (u : Uploaders) → length u.chunks ≤ fuel → IsFull (launch_loop fuel u)
unfolding launch_loop
launch_loop-IsFull zero u h = inl (no_chunks u.chunks (omega arith))
launch_loop-IsFull (suc fuel) u h = elim (Bool-cases (ltb (length u.futures) u.max_runners)) [
  | inl e ↦
      rw (e, launch_loop)
        (launch_loop-IsFull fuel (launch_popped u.max_runners u.chunks u.futures (pop u.chunks)) (
          popped-shorter fuel u.max_runners u.chunks u.futures (pop u.chunks) (pop-PopOf u.chunks)
            h))
  | inr e ↦ rw (e, launch_loop) (inr (ground arith))
]

launch_updated-IsFull :
    (st : UploadState) (updated : Option Uploaders)
    → (launch_updated st updated).failed ≡ false
    → IsFull (launch_updated st updated).uploaders
unfolding launch_more
launch_updated-IsFull st none h = absurd (ground arith)
launch_updated-IsFull st (some u) h = launch_loop-IsFull (length u.chunks) u (omega arith)

prepare-IsFull :
    (failed : Bool) (reply : Option (List Slot)) (st : UploadState)
    → st.failed ≡ failed
    → (prepare_unless failed reply st).failed ≡ false
    → IsFull (prepare_unless failed reply st).uploaders
prepare-IsFull true reply st e h = absurd (ground arith)
prepare-IsFull false reply st e h = launch_updated-IsFull st (update_slots reply st.uploaders) h

abbrev kept : List Chunk → List Chunk
kept = retain (λ (chunk : Chunk). chunk.size == 0)

abbrev Waits : List Chunk → Chunk → Type 0
Waits waiting c = (0 < c.size) ⊎ (holds c.index waiting ≡ true)

kept_blank : (x : Chunk) (xs : List Chunk) → (x.size == 0) ≡ true → kept (x ∷ xs) ≡ x ∷ kept xs
kept_blank x xs e = ground arith

kept_sized : (x : Chunk) (xs : List Chunk) → (x.size == 0) ≡ false → kept (x ∷ xs) ≡ kept xs
kept_sized x xs e = ground arith

-- The chunks that wait at first are those without a size.
kept-Waits : (xs : List Chunk) → All (Waits (kept xs)) xs
kept-Waits [] = tt
kept-Waits (x ∷ xs) = elim (Bool-cases (x.size == 0)) [
  | inl e ↦
      subst (λ ys. Waits ys x × All (Waits ys) xs) (sym (kept_blank x xs e))
        (
          inr (ground arith),
          All-map xs (λ c. elim [ inl s ↦ inl s | inr h ↦ inr (ground arith) ]) (kept-Waits xs),
        )
  | inr e ↦
      subst (λ ys. Waits ys x × All (Waits ys) xs) (sym (kept_sized x xs e))
        (inl (ground arith), kept-Waits xs)
]

none-has : (i : ℕ) (u : Uploaders) → u.futures ≡ [] → u.chunks ≡ [] → has i u ≡ true → ⊥
none-has i u no_futures none_left h =
    let nothing : has i u ≡ false = rw (no_futures, none_left) refl in ground arith

first-Inv :
    (max_runners max_opened_files : ℕ) (blueprint saved : List Chunk)
    → Distinct (indexes blueprint)
    → Inv (first_state max_runners max_opened_files blueprint saved)
first-Inv max_runners max_opened_files blueprint saved d = record {
  distinct = d;
  covered = λ ok.
      All-map blueprint (λ c. elim [ inl s ↦ inl (inl s) | inr h ↦ inr h ]) (kept-Waits blueprint);
}

-- When the loop of an upload ends since no chunk is being uploaded any more, and no error has
-- stopped it, each chunk of the blueprint is uploaded: it had its size when the loop began, or its
-- upload was saved during the loop. The chunks' indexes differ, and at least one chunk may be
-- uploaded at a time; the store's replies and the order in which the uploads end do not matter.
pub upload_loop_complete :
    (max_runners max_opened_files : ℕ) (blueprint saved : List Chunk) (st : UploadState)
    (reply : Option (List Slot))
    → Distinct (indexes blueprint)
    → Rounds (first_state max_runners max_opened_files blueprint saved) st
    → (prepare reply st).uploaders.futures ≡ []
    → (prepare reply st).failed ≡ false
    → 0 < (prepare reply st).uploaders.max_runners
    → All (IsUploaded (prepare reply st).saved) (prepare reply st).blueprint
unfolding prepare
upload_loop_complete max_runners max_opened_files blueprint saved st reply d rounds no_futures ok
      some_runner =
    let inv =
      prepare-Inv reply st
        (Rounds-Inv (first-Inv max_runners max_opened_files blueprint saved d) rounds) in
    let last = prepare reply st in
    let none_left : last.uploaders.chunks ≡ [] = elim (prepare-IsFull st.failed reply st refl ok) [
      | inl e ↦ e
      | inr full ↦ absurd (omega (arith, ap length no_futures))
    ] in
    All-map last.blueprint
      (λ c. elim [
        | inl u ↦ u
        | inr h ↦ absurd (none-has c.index last.uploaders no_futures none_left h)
      ])
      (inv.covered ok)
