-- ===== src/Upload/Reader/Data.antt =====
-- The data of a chunk, which the reader of babel/src/upload_job.rs reads.
use blockvisor.Archive.{FileLocation}
use blockvisor.Archive.Bytes.{total}
use blockvisor.Upload.Reader.{Files, FileDescriptor}
use blockvisor.Common.{
  ℕ, ◌+◌, ◌-◌, ◌≤◌, ◌≡◌, refl, sym, ap, ◌∙◌, none, some, List, [], ◌∷◌, ◌++◌, append_assoc, arith,
  length, All, length-append, slice, slice-append, length-slice,
}

module _ (files : Files) where
  abbrev pub data_at : FileLocation → List ℕ
  data_at location = elim (files location.path) [
    | none ↦ []
    | some file ↦ slice file location.pos location.size
  ]

  -- The data of a chunk.
  abbrev pub data_of : List FileLocation → List ℕ
  data_of [] = []
  data_of (d ∷ ds) = data_at d ++ data_of ds

  -- The file is there, and is long enough.
  pub record IsStored (location : FileLocation) : Type 0 where
    pub file : List ℕ
    pub found : files location.path ≡ some file
    pub long_enough : location.pos + location.size ≤ length file

abbrev pub IsReadable : FileDescriptor → Type 0
IsReadable d = d.offset + d.bytes_remaining ≤ length d.file

abbrev pub remaining : FileDescriptor → List ℕ
remaining d = slice d.file d.offset d.bytes_remaining

-- `size` bytes of the current file are read.
abbrev pub read_on : FileDescriptor → ℕ → FileDescriptor
read_on d size = record d { offset = d.offset + size; bytes_remaining = d.bytes_remaining - size }

pub read_on-remaining :
    (d : FileDescriptor) (size : ℕ) (buffer rest : List ℕ)
    → size ≤ d.bytes_remaining
    → (buffer ++ slice d.file d.offset size) ++ (remaining (read_on d size) ++ rest)
      ≡ buffer ++ (remaining d ++ rest)
read_on-remaining d size buffer rest h =
    append_assoc buffer (slice d.file d.offset size) (remaining (read_on d size) ++ rest)
    ∙ ap (◌++◌ buffer) (
        sym (append_assoc (slice d.file d.offset size) (remaining (read_on d size)) rest)
        ∙ ap (λ xs. xs ++ rest)
            (slice-append d.file d.offset size (d.bytes_remaining - size) (d.offset + size)
              d.bytes_remaining refl (omega arith)))

abbrev pub opened : List ℕ → FileLocation → FileDescriptor
opened file location = record {
  file = file;
  offset = location.pos;
  bytes_remaining = location.size;
}

module _ (files : Files) where
  pub length-data_at : (d : FileLocation) → IsStored files d → length (data_at files d) ≡ d.size
  length-data_at d s = rw (s.found, data_at) (length-slice s.file d.pos d.size s.long_enough)

  pub length-data_of :
      (ds : List FileLocation) → All (IsStored files) ds → length (data_of files ds) ≡ total ds
  length-data_of [] stored = refl
  length-data_of (d ∷ ds) (s, stored) = omega (
    arith,
    length-append (data_at files d) (data_of files ds),
    length-data_at d s,
    length-data_of ds stored,
  )
