-- ===== src/Upload/Slots.antt =====
-- The slots of babel/src/upload_job.rs: the places that the store gives for the next chunks.
use blockvisor.Common.{ℕ, some, List, [], ◌∷◌, map, reverse, ◌==◌, if◌then◌else◌, take}
use blockvisor.Archive.{Chunk, Slot}

-- The first chunk with the slot's index takes its key and its address.
abbrev pub assign_slot : Slot → List Chunk → List Chunk
assign_slot slot [] = []
assign_slot slot (chunk ∷ chunks) =
    if chunk.index == slot.index
    then record chunk { key = slot.key; url = some slot.url } ∷ chunks
    else chunk ∷ assign_slot slot chunks

unfoldable pub assign_slots : List Chunk → List Slot → List Chunk
assign_slots chunks [] = chunks
assign_slots chunks (slot ∷ slots) = assign_slots (assign_slot slot chunks) slots

-- The indexes that `fetch_slots` asks for.
unfoldable pub requested_indexes : List Chunk → ℕ → List ℕ
requested_indexes chunks count = map (λ (chunk : Chunk). chunk.index) (take count (reverse chunks))
