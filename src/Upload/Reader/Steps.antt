-- ===== src/Upload/Reader/Steps.antt =====
-- The rounds of `read_data` (babel/src/upload_job.rs).
use blockvisor.Archive.{FileLocation}
use blockvisor.Common.Outcome.{ok}
use blockvisor.Upload.Reader.{Files, FileDescriptor, read_loop}
use blockvisor.Common.{
  ℕ, suc, ◌+◌, ◌-◌, ◌≤◌, ◌<◌, min, ◌≡◌, some, List, [], ◌∷◌, ◌++◌, arith, length, slice,
}
use blockvisor.Upload.Reader.Data.{IsReadable, read_on, opened}

module _ (files : Files) where
  pub full_stops :
      (fuel max_buffer_size : ℕ) (buffer : List ℕ) (iter : List FileLocation) (d : FileDescriptor)
      → max_buffer_size ≤ length buffer
      → read_loop files (suc fuel) max_buffer_size buffer iter d ≡ ok (buffer, iter, d)
  unfolding read_loop
  full_stops fuel max_buffer_size buffer iter d h = ground arith

  pub end_stops :
      (fuel max_buffer_size : ℕ) (buffer : List ℕ) (d : FileDescriptor)
      → d.bytes_remaining ≡ 0
      → read_loop files (suc fuel) max_buffer_size buffer [] d ≡ ok (buffer, [], d)
  unfolding read_loop
  end_stops fuel max_buffer_size buffer d h = ground arith

  pub reads_current :
      (fuel max_buffer_size size : ℕ) (buffer : List ℕ) (iter : List FileLocation)
      (d : FileDescriptor)
      → length buffer < max_buffer_size
      → 0 < d.bytes_remaining
      → IsReadable d
      → size ≡ min d.bytes_remaining (max_buffer_size - length buffer)
      → read_loop files (suc fuel) max_buffer_size buffer iter d
        ≡ read_loop files fuel max_buffer_size
            (buffer ++ slice d.file d.offset size)
            iter
            (read_on d size)
  unfolding read_loop
  reads_current fuel max_buffer_size size buffer [] d room some_bytes readable e =
      rw e (ground arith)
  reads_current fuel max_buffer_size size buffer (x ∷ iter) d room some_bytes readable e =
      rw e (ground arith)

  pub reads_next :
      (fuel max_buffer_size size : ℕ) (buffer : List ℕ) (next : FileLocation)
      (iter : List FileLocation) (d : FileDescriptor) (file : List ℕ)
      → length buffer < max_buffer_size
      → d.bytes_remaining ≡ 0
      → files next.path ≡ some file
      → next.pos + next.size ≤ length file
      → size ≡ min next.size (max_buffer_size - length buffer)
      → read_loop files (suc fuel) max_buffer_size buffer (next ∷ iter) d
        ≡ read_loop files fuel max_buffer_size
            (buffer ++ slice file next.pos size)
            iter
            (read_on (opened file next) size)
  unfolding read_loop
  reads_next fuel max_buffer_size size buffer next iter d file room used found readable e =
      rw e (ground arith)
  -- Where a run of the loop ends: nothing is lost, and it stops early only at the end of the data.
