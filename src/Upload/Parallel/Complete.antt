-- ===== src/Upload/Parallel/Complete.antt =====
-- The loop of `Uploader::run` (babel/src/upload_job.rs) leaves no chunk out.
use blockvisor.Common.{
  ℕ, ◌<◌, ◌≡◌, refl, sym, ap, ◌∙◌, ◌≢◌, ◌⊎◌, inl, inr, Bool, true, false, ◌||◌, Option, none, some,
  List, [], ◌∷◌, ◌++◌, arith, get_elem?, All, Bool-cases,
}
use blockvisor.Archive.{Chunk, Checksum, Slot}
use blockvisor.Upload.Parallel.{
  Uploaders, update_slots, launch_updated, prepare_unless, prepare, uploaded_chunk, mark_uploaded,
  UploadState, without_future, Writes, set_marked, save_uploaded, receive,
}
use blockvisor.Upload.Parallel.Indexes.{holds, has, has-prepare, holds-remove_at}
use blockvisor.Upload.Parallel.Marked.{indexes, Distinct, Marked, mark_uploaded-Marked}

abbrev pub In : Chunk → List Chunk → Type 0
In chunk [] = ⊥
In chunk (x ∷ xs) = (x ≡ chunk) ⊎ In chunk xs

In-append : (chunk : Chunk) (xs ys : List Chunk) → In chunk xs → In chunk (xs ++ ys)
In-append chunk [] ys h = absurd h
In-append chunk (x ∷ xs) ys (inl e) = inl e
In-append chunk (x ∷ xs) ys (inr h) = inr (In-append chunk xs ys h)

In-last : (chunk : Chunk) (xs : List Chunk) → In chunk (xs ++ chunk ∷ [])
In-last chunk [] = inl refl
In-last chunk (x ∷ xs) = inr (In-last chunk xs)

-- The chunk had a size when the loop began, or its upload was saved.
abbrev pub IsUploaded : List Chunk → Chunk → Type 0
IsUploaded saved chunk = (0 < chunk.size) ⊎ In chunk saved

abbrev pub Covered : List Chunk → Uploaders → Chunk → Type 0
Covered saved u chunk = IsUploaded saved chunk ⊎ (has chunk.index u ≡ true)

-- What a future returns: an error, or its chunk with a checksum and a size.
abbrev pub IsResult : Chunk → Option Chunk → Type 0
IsResult chunk none = Unit {0}
IsResult chunk (some result) =
    (checksum : Checksum) × (size : ℕ) × (result ≡ uploaded_chunk chunk checksum size)

-- A round of the loop: the chunk that the future at `i` uploads ends.
pub data Round (st : UploadState) : UploadState → Type 0 where
  round :
      (reply : Option (List Slot)) (i : ℕ) (writes : Writes) (chunk : Chunk) (result : Option Chunk)
      → get_elem? (prepare reply st).uploaders.futures i ≡ some chunk
      → IsResult chunk result
      → Round st (receive i writes result (prepare reply st))

pub data Rounds (first : UploadState) : UploadState → Type 0 where
  no_round : Rounds first first
  more : {st st' : UploadState} → Rounds first st → Round st st' → Rounds first st'

pub record Inv (st : UploadState) : Type 0 where
  pub distinct : Distinct (indexes st.blueprint)
  pub covered : st.failed ≡ false → All (Covered st.saved st.uploaders) st.blueprint

pub prepare-failed :
    (failed : Bool) (reply : Option (List Slot)) (st : UploadState)
    → st.failed ≡ failed
    → (prepare_unless failed reply st).failed ≡ false
    → failed ≡ false
prepare-failed true reply st e h = absurd (ground arith)
prepare-failed false reply st e h = refl

launch_updated-keeps :
    (st : UploadState) (updated : Option Uploaders)
    → ((launch_updated st updated).blueprint ≡ st.blueprint)
      × ((launch_updated st updated).saved ≡ st.saved)
launch_updated-keeps st none = (refl, refl)
launch_updated-keeps st (some u) = (refl, refl)

prepare-keeps :
    (failed : Bool) (reply : Option (List Slot)) (st : UploadState)
    → ((prepare_unless failed reply st).blueprint ≡ st.blueprint)
      × ((prepare_unless failed reply st).saved ≡ st.saved)
prepare-keeps true reply st = (refl, refl)
prepare-keeps false reply st = launch_updated-keeps st (update_slots reply st.uploaders)

pub All-map :
    {P Q : Chunk → Type 0} (xs : List Chunk) → ((c : Chunk) → P c → Q c) → All P xs → All Q xs
All-map [] f h = tt
All-map (x ∷ xs) f (h, hs) = (f x h, All-map xs f hs)

pub prepare-Inv : (reply : Option (List Slot)) (st : UploadState) → Inv st → Inv (prepare reply st)
unfolding prepare
prepare-Inv reply st inv =
    let (same, same') = prepare-keeps st.failed reply st in
    record {
      distinct = rw same inv.distinct;
      covered = λ ok.
          rw (same, same')
            (All-map st.blueprint
              (λ c. elim [ inl u ↦ inl u | inr h ↦ inr (has-prepare c.index reply st ∙ h) ])
              (inv.covered (prepare-failed st.failed reply st refl ok)));
    }

set_marked-Inv :
    (progress : Bool) (st : UploadState) (marked : Option (List Chunk))
    → Distinct (indexes st.blueprint)
    → Marked (λ c. Unit {0}) st.blueprint marked
    → (st.failed ≡ false → Marked (Covered st.saved st.uploaders) st.blueprint marked)
    → Inv (set_marked progress st marked)
set_marked-Inv progress st none d m h = record {
  distinct = d;
  covered = λ ok. absurd (ground arith);
}
set_marked-Inv progress st (some items) d (_, same) h = record {
  distinct = rw same d;
  covered = λ ok. (h (ground arith)).0;
}

every : (xs : List Chunk) → All (λ c. Unit {0}) xs
every [] = tt
every (x ∷ xs) = (tt, every xs)

save_uploaded-Inv :
    (i : ℕ) (writes : Writes) (f c : Chunk) (st : UploadState)
    → get_elem? st.uploaders.futures i ≡ some f
    → c.index ≡ f.index
    → Inv st
    → Inv (save_uploaded writes c (without_future i st))
save_uploaded-Inv i writes f c st found same inv = elim (Bool-cases writes.chunk) [
  | inr e ↦ rw e (record { distinct = inv.distinct; covered = λ ok. absurd (ground arith) })
  | inl e ↦
      let st1 = record (without_future i st) { saved = st.saved ++ c ∷ [] } in
      let keeps : (b : Chunk)
          → Covered st.saved st.uploaders b
          → b.index ≢ c.index
          → Covered st1.saved st1.uploaders b =
        λ b h differ. elim h [
          | inl (inl sized) ↦ inl (inl sized)
          | inl (inr there) ↦ inl (inr (In-append b st.saved (c ∷ []) there))
          | inr waits ↦
              let differ' : b.index ≢ f.index = λ e'. differ (e' ∙ sym same) in
              inr (
                ap (λ x. x || holds b.index st.uploaders.chunks)
                  (holds-remove_at b.index i st.uploaders.futures f found differ')
                ∙ waits)
        ] in
      rw e (
        set_marked-Inv writes.progress st1 (mark_uploaded c st.blueprint) inv.distinct
          (mark_uploaded-Marked c (λ b h differ. tt) tt st.blueprint inv.distinct
            (every st.blueprint))
          (λ ok.
            mark_uploaded-Marked c keeps (inl (inr (In-last c st.saved))) st.blueprint inv.distinct
              (inv.covered ok)))
]

receive-Inv :
    (i : ℕ) (writes : Writes) (f : Chunk) (result : Option Chunk) (st : UploadState)
    → get_elem? st.uploaders.futures i ≡ some f
    → IsResult f result
    → Inv st
    → Inv (receive i writes result st)
unfolding receive
receive-Inv i writes f none st found r inv = record {
  distinct = inv.distinct;
  covered = λ ok. absurd (ground arith);
}
receive-Inv i writes f (some c) st found (checksum, size, e) inv =
    save_uploaded-Inv i writes f c st found (ap (λ (x : Chunk). x.index) e) inv

pub Rounds-Inv : {first st : UploadState} → Inv first → Rounds first st → Inv st
Rounds-Inv inv no_round = inv
Rounds-Inv inv (more {st} before (round reply i writes chunk result found r)) =
    receive-Inv i writes chunk result (prepare reply st) found r
      (prepare-Inv reply st (Rounds-Inv inv before))
