-- ===== src/Examples/Upload.antt =====
-- Two chunks, uploaded one after the other: the theorem on the loop of babel/src/upload_job.rs at a
-- concrete input.
use blockvisor.Common.{ℕ, refl, true, Option, none, some, List, [], ◌∷◌, arith, All}
use blockvisor.Archive.{Chunk, sha1, Slot}
use blockvisor.Upload.Blueprint.{blank_chunk}
use blockvisor.Upload.Slots.{assign_slots}
use blockvisor.Upload.Parallel.{
  UploadState, first_state, prepare, receive, Writes, uploaded_chunk, update_slots, launch_more,
  launch_loop,
}
use blockvisor.Upload.Parallel.Complete.{IsUploaded, round, Rounds, no_round, more}
use blockvisor.Upload.Parallel.Ended.{upload_loop_complete}

abbrev slot_of : ℕ → Slot
slot_of index = record { index = index; key = "key"; url = "url" }

abbrev two_blank : List Chunk
two_blank = blank_chunk 0 [] ∷ blank_chunk 1 [] ∷ []

abbrev with_slot : Chunk → Chunk
with_slot chunk = record chunk { key = "key"; url = some "url" }

abbrev writes : Writes
writes = record { chunk = true; progress = true }

abbrev two_slots : Option (List Slot)
two_slots = some (slot_of 0 ∷ slot_of 1 ∷ [])

abbrev begin : UploadState
begin = first_state 1 1024 two_blank []

abbrev first_chunk : Chunk
first_chunk = with_slot (blank_chunk 1 [])

abbrev second_chunk : Chunk
second_chunk = with_slot (blank_chunk 0 [])

abbrev after_one : UploadState
after_one =
    receive 0 writes (some (uploaded_chunk first_chunk (sha1 (1 ∷ [])) 4)) (prepare two_slots begin)

abbrev after_two : UploadState
after_two =
    receive 0 writes (some (uploaded_chunk second_chunk (sha1 (2 ∷ [])) 5)) (prepare none after_one)

two-Rounds : Rounds begin after_two
unfolding prepare update_slots launch_more launch_loop receive assign_slots
two-Rounds =
    more
      (more no_round (
        round two_slots 0 writes first_chunk (some (uploaded_chunk first_chunk (sha1 (1 ∷ [])) 4))
          refl (sha1 (1 ∷ []), 4, refl)))
      (round none 0 writes second_chunk (some (uploaded_chunk second_chunk (sha1 (2 ∷ [])) 5)) refl
        (sha1 (2 ∷ []), 5, refl))

upload_loop_complete_example :
    All (IsUploaded (prepare none after_two).saved) (prepare none after_two).blueprint
unfolding prepare update_slots launch_more launch_loop receive assign_slots
upload_loop_complete_example =
    upload_loop_complete 1 1024 two_blank [] after_two none (((λ e. ground arith), tt), (tt, tt))
      two-Rounds refl refl (omega arith)
