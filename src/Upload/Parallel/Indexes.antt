-- ===== src/Upload/Parallel/Indexes.antt =====
-- The chunks that wait or are uploaded, by their indexes: no operation of `ParallelChunkUploaders`
-- (babel/src/upload_job.rs) loses one.
use blockvisor.Common.{
  ℕ, zero, suc, ◌≡◌, refl, ap, ◌∙◌, ◌≢◌, inl, inr, Bool, true, false, ◌||◌, Option, none, some,
  List, [], ◌∷◌, ◌++◌, arith, ltb, ◌==◌, length, get_elem?, Bool-cases,
}
use blockvisor.Archive.{Chunk, Slot}
use blockvisor.Upload.Slots.{assign_slot, assign_slots}
use blockvisor.Upload.Parallel.{
  Uploaders, UploadState, after_first, pop, needs_url, with_reply, update_slots, launch_popped,
  launch_loop, launch_more, launch_updated, prepare_unless, prepare, remove_at,
}

abbrev pub holds : ℕ → List Chunk → Bool
holds i [] = false
holds i (chunk ∷ chunks) = (chunk.index == i) || holds i chunks

-- The chunk is waiting, or is uploaded now.
abbrev pub has : ℕ → Uploaders → Bool
has i u = holds i u.futures || holds i u.chunks

holds-append : (i : ℕ) (xs ys : List Chunk) → holds i (xs ++ ys) ≡ (holds i xs || holds i ys)
holds-append i [] ys = refl
holds-append i (x ∷ xs) ys = ground (arith, holds-append i xs ys)

-- What `pop` takes apart.
abbrev pub PopOf : List Chunk → Option (List Chunk × Chunk) → Type 0
PopOf chunks none = chunks ≡ []
PopOf chunks (some (rest, last)) = chunks ≡ rest ++ last ∷ []

after_first-PopOf :
    (chunk : Chunk) (chunks : List Chunk) (popped : Option (List Chunk × Chunk))
    → PopOf chunks popped
    → PopOf (chunk ∷ chunks) (after_first chunk popped)
after_first-PopOf chunk chunks none e = ap (◌∷◌ chunk) e
after_first-PopOf chunk chunks (some (rest, last)) e = ap (◌∷◌ chunk) e

pub pop-PopOf : (chunks : List Chunk) → PopOf chunks (pop chunks)
pop-PopOf [] = refl
pop-PopOf (chunk ∷ chunks) = after_first-PopOf chunk chunks (pop chunks) (pop-PopOf chunks)

holds-assign_slot :
    (i : ℕ) (slot : Slot) (chunks : List Chunk) → holds i (assign_slot slot chunks) ≡ holds i chunks
holds-assign_slot i slot [] = refl
holds-assign_slot i slot (chunk ∷ chunks) = ground (arith, holds-assign_slot i slot chunks)

holds-assign_slots :
    (i : ℕ) (chunks : List Chunk) (slots : List Slot)
    → holds i (assign_slots chunks slots) ≡ holds i chunks
unfolding assign_slots
holds-assign_slots i chunks [] = refl
holds-assign_slots i chunks (slot ∷ slots) =
    holds-assign_slots i (assign_slot slot chunks) slots ∙ holds-assign_slot i slot chunks

has-launch_popped :
    (i max_runners : ℕ) (chunks futures : List Chunk) (popped : Option (List Chunk × Chunk))
    → PopOf chunks popped
    → has i (launch_popped max_runners chunks futures popped) ≡ (holds i futures || holds i chunks)
has-launch_popped i max_runners chunks futures none e = refl
has-launch_popped i max_runners chunks futures (some (rest, last)) split =
    let l = holds-append i futures (last ∷ []) in
    let r = holds-append i rest (last ∷ []) in rw (split, l, r) (ground arith)

has-launch_loop : (i fuel : ℕ) (u : Uploaders) → has i (launch_loop fuel u) ≡ has i u
unfolding launch_loop
has-launch_loop i zero u = refl
has-launch_loop i (suc fuel) u = elim (Bool-cases (ltb (length u.futures) u.max_runners)) [
  | inl e ↦
      rw (e, launch_loop)
        (has-launch_loop i fuel (launch_popped u.max_runners u.chunks u.futures (pop u.chunks))
          ∙ has-launch_popped i u.max_runners u.chunks u.futures (pop u.chunks)
              (pop-PopOf u.chunks))
  | inr e ↦ rw (e, launch_loop) refl
]

-- The same chunks are there, if there was no error.
abbrev HasSame : ℕ → Uploaders → Option Uploaders → Type 0
HasSame i u none = Unit {0}
HasSame i u (some u') = has i u' ≡ has i u

with_reply-HasSame :
    (i : ℕ) (u : Uploaders) (reply : Option (List Slot)) → HasSame i u (with_reply u reply)
with_reply-HasSame i u none = tt
with_reply-HasSame i u (some slots) =
    ap (◌||◌ (holds i u.futures)) (holds-assign_slots i u.chunks slots)

update_slots-HasSame :
    (i : ℕ) (u : Uploaders) (reply : Option (List Slot)) → HasSame i u (update_slots reply u)
unfolding update_slots
update_slots-HasSame i u reply = elim (Bool-cases (needs_url (pop u.chunks))) [
  | inl e ↦ rw (e, HasSame) (with_reply-HasSame i u reply)
  | inr e ↦ rw (e, HasSame) refl
]

has-launch_updated :
    (i : ℕ) (st : UploadState) (updated : Option Uploaders)
    → HasSame i st.uploaders updated
    → has i (launch_updated st updated).uploaders ≡ has i st.uploaders
unfolding launch_more
has-launch_updated i st none h = refl
has-launch_updated i st (some u) h = has-launch_loop i (length u.chunks) u ∙ h

has-prepare_unless :
    (i : ℕ) (failed : Bool) (reply : Option (List Slot)) (st : UploadState)
    → has i (prepare_unless failed reply st).uploaders ≡ has i st.uploaders
has-prepare_unless i true reply st = refl
has-prepare_unless i false reply st =
    has-launch_updated i st (update_slots reply st.uploaders)
      (update_slots-HasSame i st.uploaders reply)

pub has-prepare :
    (i : ℕ) (reply : Option (List Slot)) (st : UploadState)
    → has i (prepare reply st).uploaders ≡ has i st.uploaders
unfolding prepare
has-prepare i reply st = has-prepare_unless i st.failed reply st

abbrev pub index_or_0 : Option Chunk → ℕ
index_or_0 none = 0
index_or_0 (some chunk) = chunk.index

-- Another chunk than the one that is removed is still there.
pub holds-remove_at :
    (i n : ℕ) (chunks : List Chunk) (chunk : Chunk)
    → get_elem? chunks n ≡ some chunk
    → i ≢ chunk.index
    → holds i (remove_at n chunks) ≡ holds i chunks
holds-remove_at i n [] chunk e h = refl
holds-remove_at i zero (first ∷ chunks) chunk e h =
    let same : first.index ≡ chunk.index = ap index_or_0 e in ground arith
holds-remove_at i (suc n) (first ∷ chunks) chunk e h =
    ap (◌||◌ (first.index == i)) (holds-remove_at i n chunks chunk e h)
