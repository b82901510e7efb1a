-- ===== src/Upload/Reader/Loop.antt =====
-- What `read_data` (babel/src/upload_job.rs) returns: the next bytes of the chunk's data.
use native.Mathlib.Decide.{dec_lt}
use blockvisor.Archive.{FileLocation}
use blockvisor.Common.Outcome.{Outcome, ok}
use blockvisor.Upload.Reader.{Files, FileDescriptor, NonRecoverableError, read_loop, read_data}
use blockvisor.Common.{
  ℕ, zero, suc, ◌+◌, ◌-◌, ◌≤◌, ◌<◌, min, ◌≡◌, refl, ap, ◌∙◌, ◌⊎◌, some, List, [], ◌∷◌, ◌++◌, arith,
  ◌==◌, if◌then◌else◌, length, All, length-append, slice, length-slice,
}
use blockvisor.Upload.Reader.Data.{
  data_at, data_of, IsStored, IsReadable, remaining, read_on, read_on-remaining, opened,
}
use blockvisor.Upload.Reader.Steps.{full_stops, end_stops, reads_current, reads_next}

module _ (files : Files) where
  pub record Reads (max_buffer_size : ℕ) (buffer rest buffer' : List ℕ) (iter' : List FileLocation)
      (current' : FileDescriptor) : Type 0 where
    pub in_order : buffer' ++ (remaining current' ++ data_of files iter') ≡ buffer ++ rest
    pub readable : IsReadable current'
    pub stored : All (IsStored files) iter'
    pub bounded : length buffer' ≤ max_buffer_size
    pub ended : length buffer' < max_buffer_size → (iter' ≡ []) × (current'.bytes_remaining ≡ 0)

  abbrev pub Ends :
      Outcome NonRecoverableError (List ℕ × List FileLocation × FileDescriptor)
      → ℕ
      → List ℕ
      → List ℕ
      → Type 0
  Ends run max_buffer_size buffer rest =
      (buffer' : List ℕ) × (iter' : List FileLocation) × (current' : FileDescriptor) × (run
        ≡ ok (buffer', iter', current'))
      × Reads max_buffer_size buffer rest buffer' iter' current'

  Reads-append :
      (max_buffer_size : ℕ) (buffer buffer₁ rest rest₁ : List ℕ)
      (run run₁ : Outcome NonRecoverableError (List ℕ × List FileLocation × FileDescriptor))
      → run ≡ run₁
      → buffer₁ ++ rest₁ ≡ buffer ++ rest
      → Ends run₁ max_buffer_size buffer₁ rest₁
      → Ends run max_buffer_size buffer rest
  Reads-append max_buffer_size buffer buffer₁ rest rest₁ run run₁ e c (b, i, d, r, t) = (
    b,
    i,
    d,
    e ∙ r,
    record {
      in_order = t.in_order ∙ c;
      readable = t.readable;
      stored = t.stored;
      bounded = t.bounded;
      ended = t.ended;
    },
  )

  abbrev busy : FileDescriptor → ℕ
  busy d = if d.bytes_remaining == 0 then 0 else 1

  -- After a round, what is left of the fuel is enough.
  still_enough :
      (fuel max_buffer_size size n : ℕ) (buffer : List ℕ) (d : FileDescriptor)
      → n < fuel
      → length buffer < max_buffer_size
      → IsReadable d
      → size ≡ min d.bytes_remaining (max_buffer_size - length buffer)
      → let buffer₁ = buffer ++ slice d.file d.offset size in
        (length buffer₁ ≤ max_buffer_size)
        × ((max_buffer_size ≤ length buffer₁) ⊎ (n + busy (read_on d size) < fuel))
  still_enough fuel max_buffer_size size n buffer d enough room readable e =
      ground (
        arith,
        length-append buffer (slice d.file d.offset size),
        length-slice d.file d.offset size,
      )

  -- A used-up file followed by a stored one: the data of the stored one comes next.
  next_data :
      (next : FileLocation) (iter : List FileLocation) (d : FileDescriptor) (file : List ℕ)
      → d.bytes_remaining ≡ 0
      → files next.path ≡ some file
      → remaining (opened file next) ++ data_of files iter
        ≡ remaining d ++ data_of files (next ∷ iter)
  next_data next iter d file used found = rw (found, used, data_at)

  stops_full :
      (fuel max_buffer_size : ℕ) (buffer : List ℕ) (iter : List FileLocation) (d : FileDescriptor)
      → length buffer ≤ max_buffer_size
      → max_buffer_size ≤ length buffer
      → IsReadable d
      → All (IsStored files) iter
      → Ends
          (read_loop files (suc fuel) max_buffer_size buffer iter d)
          max_buffer_size
          buffer
          (remaining d ++ data_of files iter)
  stops_full fuel max_buffer_size buffer iter d fits full readable stored = (
    buffer,
    iter,
    d,
    full_stops files fuel max_buffer_size buffer iter d full,
    record {
      in_order = refl;
      readable = readable;
      stored = stored;
      bounded = fits;
      ended = λ h. absurd (omega arith);
    },
  )

  read_loop-Reads :
      (fuel max_buffer_size : ℕ) (buffer : List ℕ) (iter : List FileLocation) (d : FileDescriptor)
      → length buffer ≤ max_buffer_size
      → (max_buffer_size ≤ length buffer) ⊎ (length iter + busy d < fuel)
      → IsReadable d
      → All (IsStored files) iter
      → Ends
          (read_loop files (suc fuel) max_buffer_size buffer iter d)
          max_buffer_size
          buffer
          (remaining d ++ data_of files iter)
  read_loop-Reads zero max_buffer_size buffer iter d fits enough readable stored =
      stops_full 0 max_buffer_size buffer iter d fits (ground arith) readable stored
  read_loop-Reads (suc fuel) max_buffer_size buffer [] d fits enough readable stored =
      elim (dec_lt (length buffer) max_buffer_size) [
        | no full ↦
            stops_full (suc fuel) max_buffer_size buffer [] d fits (omega arith) readable stored
        | yes room ↦ elim (dec_lt 0 d.bytes_remaining) [
          | no used ↦ (
            buffer,
            [],
            d,
            end_stops files (suc fuel) max_buffer_size buffer d (omega arith),
            record {
              in_order = refl;
              readable = readable;
              stored = tt;
              bounded = fits;
              ended = λ _. (refl, omega arith);
            },
          )
          | yes some_bytes ↦
              let size = min d.bytes_remaining (max_buffer_size - length buffer) in
              let (fits₁, enough₁) =
                still_enough fuel max_buffer_size size 0 buffer d (ground arith) room readable
                  refl in
              Reads-append max_buffer_size buffer (buffer ++ slice d.file d.offset size)
                (remaining d ++ []) (remaining (read_on d size) ++ []) _ _
                (reads_current files (suc fuel) max_buffer_size size buffer [] d room some_bytes
                  readable refl)
                (read_on-remaining d size buffer [] (omega arith))
                (read_loop-Reads fuel max_buffer_size (buffer ++ slice d.file d.offset size) []
                  (read_on d size) fits₁ enough₁ (omega arith) tt)
        ]
      ]
  read_loop-Reads (suc fuel) max_buffer_size buffer (next ∷ iter) d fits enough readable stored =
      elim (dec_lt (length buffer) max_buffer_size) [
        | no full ↦
            stops_full (suc fuel) max_buffer_size buffer (next ∷ iter) d fits (omega arith) readable
              stored
        | yes room ↦ elim (dec_lt 0 d.bytes_remaining) [
          | no used ↦
              let file = stored.0.file in
              let d₁ = opened file next in
              let size = min next.size (max_buffer_size - length buffer) in
              let (fits₁, enough₁) =
                still_enough fuel max_buffer_size size (length iter) buffer d₁ (ground arith) room
                  stored.0.long_enough refl in
              Reads-append max_buffer_size buffer (buffer ++ slice file next.pos size)
                (remaining d ++ data_of files (next ∷ iter))
                (remaining (read_on d₁ size) ++ data_of files iter) _ _
                (reads_next files (suc fuel) max_buffer_size size buffer next iter d file room
                  (omega arith) stored.0.found stored.0.long_enough refl)
                (read_on-remaining d₁ size buffer (data_of files iter) (omega arith)
                  ∙ ap (◌++◌ buffer) (next_data next iter d file (omega arith) stored.0.found))
                (read_loop-Reads fuel max_buffer_size (buffer ++ slice file next.pos size) iter
                  (read_on d₁ size) fits₁ enough₁ (omega (arith, stored.0.long_enough)) stored.1)
          | yes some_bytes ↦
              let size = min d.bytes_remaining (max_buffer_size - length buffer) in
              let (fits₁, enough₁) =
                still_enough fuel max_buffer_size size (suc (length iter)) buffer d (ground arith)
                  room readable refl in
              Reads-append max_buffer_size buffer (buffer ++ slice d.file d.offset size)
                (remaining d ++ data_of files (next ∷ iter))
                (remaining (read_on d size) ++ data_of files (next ∷ iter)) _ _
                (reads_current files (suc fuel) max_buffer_size size buffer (next ∷ iter) d room
                  some_bytes readable refl)
                (read_on-remaining d size buffer (data_of files (next ∷ iter)) (omega arith))
                (read_loop-Reads fuel max_buffer_size (buffer ++ slice d.file d.offset size)
                  (next ∷ iter) (read_on d size) fits₁ enough₁ (omega arith) stored)
        ]
      ]

  pub read_data-Reads :
      (max_buffer_size : ℕ) (iter : List FileLocation) (d : FileDescriptor)
      → IsReadable d
      → All (IsStored files) iter
      → Ends
          (read_data files max_buffer_size iter d)
          max_buffer_size
          []
          (remaining d ++ data_of files iter)
  unfolding read_data
  read_data-Reads max_buffer_size iter d readable stored =
      read_loop-Reads (suc (suc (length iter))) max_buffer_size [] iter d (omega arith)
        (ground arith) readable stored
