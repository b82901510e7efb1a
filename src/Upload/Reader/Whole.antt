-- ===== src/Upload/Reader/Whole.antt =====
-- The stream that `ChunkUploader::upload_chunk` (babel/src/upload_job.rs) sends where the archive is
-- not compressed: the data of the chunk.
use blockvisor.Archive.{FileLocation}
use blockvisor.Archive.Bytes.{total}
use native.Mathlib.Decide.{dec_lt}
use blockvisor.Coder.{no_coder}
use blockvisor.Common.Outcome.{ok, ◌>>=◌}
use blockvisor.Upload.Reader.{
  Files, FileDescriptor, DestinationsReader, read_data, new, chunk_body, next_loop, try_next,
  stream,
}
use blockvisor.Upload.Reader.Data.{
  data_of, data_at, length-data_of, IsStored, IsReadable, remaining,
}
use blockvisor.Upload.Reader.Loop.{Reads, read_data-Reads}
use blockvisor.Common.{
  ℕ, zero, suc, ◌+◌, ◌≤◌, ◌<◌, ◌≡◌, refl, sym, ap, ◌∙◌, ◌≢◌, ◌⊎◌, inl, inr, true, false, ◌&&◌,
  Option, none, some, List, [], ◌∷◌, ◌++◌, append-nil, append_assoc, arith, ◌==◌, length, All,
  Bool-cases, length-append, is_empty, first_of_some, flatten,
}

module _ (files : Files) (max_buffer_size : ℕ) where
  abbrev Reader : Type 0
  Reader = DestinationsReader no_coder

  -- What the reader has still to read.
  abbrev pending : Reader → List ℕ
  pending r = remaining r.current ++ data_of files r.iter

  record IsReady (r : Reader) (hashed : List ℕ) : Type 0 where
    readable : IsReadable r.current
    stored : All (IsStored files) r.iter
    state : Option (List ℕ)
    active : r.interim_buffer ≡ some (state, hashed)

  -- One call: the rest of the data and the end, or a part of it.
  abbrev Parts : Reader → List ℕ → Type 0
  Parts r hashed =
      (r' : Reader) × (part : List ℕ) × (try_next files no_coder max_buffer_size r
        ≡ ok (some part, r'))
      × (((part ≡ pending r) × (r'.interim_buffer ≡ none) × (r'.sent ≡ some (hashed ++ part)))
          ⊎ ((part ++ pending r' ≡ pending r) × (0 < length part) × IsReady r' (hashed ++ part)))

  -- The reader after `read_data` has returned.
  abbrev after_read : Reader → List ℕ → List FileLocation → FileDescriptor → Reader
  after_read r buffer iter current = record r {
    iter = iter;
    current = current;
    bytes_read = r.bytes_read + length buffer;
  }

  module _ (r : Reader) (hashed buffer : List ℕ) (state : Option (List ℕ))
      (iter : List FileLocation) (current : FileDescriptor)
      (active : r.interim_buffer ≡ some (state, hashed))
      (run : read_data files max_buffer_size r.iter r.current ≡ ok (buffer, iter, current)) where
    end_step :
        (is_empty iter && (current.bytes_remaining == 0)) ≡ true
        → try_next files no_coder max_buffer_size r
          ≡ ok (
            some buffer,
            record (after_read r buffer iter current) {
              interim_buffer = none;
              sent = some (hashed ++ buffer);
            },
          )
    unfolding try_next
    end_step at_end = rw (active, try_next) (rw (run, next_loop, ◌>>=◌) (rw at_end))

    more_step :
        (is_empty iter && (current.bytes_remaining == 0)) ≡ false
        → (byte : ℕ) (more : List ℕ) → buffer ≡ byte ∷ more
        → try_next files no_coder max_buffer_size r
          ≡ ok (
            some buffer,
            record (after_read r buffer iter current) {
              interim_buffer = some (none, hashed ++ buffer);
            },
          )
    unfolding try_next
    more_step not_end byte more e = ground arith

  at_end_nothing :
      (iter : List FileLocation) (current : FileDescriptor)
      → (is_empty iter && (current.bytes_remaining == 0)) ≡ true
      → remaining current ++ data_of files iter ≡ []
  at_end_nothing [] current h = let used : current.bytes_remaining ≡ 0 = ground arith in rw used
  at_end_nothing (x ∷ iter) current h = cc

  not_at_end_full :
      (buffer rest : List ℕ) (iter : List FileLocation) (current : FileDescriptor)
      → (is_empty iter && (current.bytes_remaining == 0)) ≡ false
      → Reads files max_buffer_size [] rest buffer iter current
      → max_buffer_size ≤ length buffer
  not_at_end_full buffer rest iter current h t = elim (dec_lt (length buffer) max_buffer_size) [
    | no full ↦ omega arith
    | yes short ↦
        let (no_file, used) = t.ended short in
        let test : (is_empty iter && (current.bytes_remaining == 0)) ≡ true = rw (no_file, used) in
        cc
  ]

  try_next-Parts :
      (r : Reader) (hashed : List ℕ) → 0 < max_buffer_size → IsReady r hashed → Parts r hashed
  try_next-Parts r hashed some_room ready =
      let (buffer, iter, current, run, t) =
        read_data-Reads files max_buffer_size r.iter r.current ready.readable ready.stored in
      elim (Bool-cases (is_empty iter && (current.bytes_remaining == 0))) [
        | inl at_end ↦ (
          record (after_read r buffer iter current) {
            interim_buffer = none;
            sent = some (hashed ++ buffer);
          },
          buffer,
          end_step r hashed buffer ready.state iter current ready.active run at_end,
          inl (
            sym (append-nil buffer)
                ∙ ap (◌++◌ buffer) (sym (at_end_nothing iter current at_end))
                ∙ t.in_order,
            refl,
            refl,
          ),
        )
        | inr not_end ↦
            let full = not_at_end_full buffer (pending r) iter current not_end t in
            let (byte, more, e) = first_of_some buffer (omega arith) in
            (
              record (after_read r buffer iter current) {
                interim_buffer = some (none, hashed ++ buffer);
              },
              buffer,
              more_step r hashed buffer ready.state iter current ready.active run not_end byte more
                  e,
              inr (
                t.in_order,
                omega arith,
                record { readable = t.readable; stored = t.stored; state = none; active = refl },
              ),
            )
      ]

  stream_part :
      (fuel : ℕ) (r r' last : Reader) (part : List ℕ) (parts : List (List ℕ))
      → try_next files no_coder max_buffer_size r ≡ ok (some part, r')
      → stream files no_coder max_buffer_size fuel r' ≡ ok (parts, last)
      → stream files no_coder max_buffer_size (suc fuel) r ≡ ok (part ∷ parts, last)
  unfolding stream
  stream_part fuel r r' last part parts e e' = ground arith

  stream_end :
      (fuel : ℕ) (r : Reader)
      → r.interim_buffer ≡ none
      → stream files no_coder max_buffer_size (suc fuel) r ≡ ok ([], r)
  unfolding stream try_next
  stream_end fuel r e = ground arith

  stream-data :
      (fuel : ℕ) (r : Reader) (hashed : List ℕ)
      → 0 < max_buffer_size
      → length (pending r) < fuel
      → IsReady r hashed
      → (parts : List (List ℕ)) × (r' : Reader) × (stream files no_coder max_buffer_size
            (suc fuel)
            r
          ≡ ok (parts, r'))
        × (flatten parts ≡ pending r)
        × (r'.sent ≡ some (hashed ++ pending r))
  stream-data zero r hashed some_room enough ready = absurd (omega arith)
  stream-data (suc fuel) r hashed some_room enough ready =
      let (r', part, run, outcome) = try_next-Parts r hashed some_room ready in
      elim outcome [
        | inl (whole, ended, sent) ↦ (
          part ∷ [],
          r',
          stream_part (suc fuel) r r' r' part [] run (stream_end fuel r' ended),
          append-nil part ∙ whole,
          sent ∙ ap (λ xs. some (hashed ++ xs)) whole,
        )
        | inr (split, some_bytes, ready') ↦
            let (parts, last, rest, all, sent) =
              stream-data fuel r' (hashed ++ part) some_room
                (omega (arith, ap length split, length-append part (pending r'))) ready' in
            (
              part ∷ parts,
              last,
              stream_part (suc fuel) r r' last part parts run rest,
              ap (◌++◌ part) all ∙ split,
              sent ∙ ap some (append_assoc hashed part (pending r') ∙ ap (◌++◌ hashed) split),
            )
      ]

  abbrev start : FileLocation → List FileLocation → List ℕ → Reader
  start first iter file = record {
    iter = iter;
    current = record { file = file; offset = first.pos; bytes_remaining = first.size };
    bytes_read = 0;
    interim_buffer = some (none, []);
    sent = none;
  }

  new_ok :
      (first : FileLocation) (iter : List FileLocation) (file : List ℕ)
      → files first.path ≡ some file
      → new files no_coder max_buffer_size (first ∷ iter) ≡ ok (start first iter file)
  unfolding new
  new_ok first iter file found = rw (found, new, ◌>>=◌)

  -- Where the archive is not compressed, the buffer has room for a byte, and the files of a chunk
  -- are there and long enough, the stream of the chunk's body ends without an error, and its parts
  -- together are the data of the chunk. The checksum is sent, and is that of this data, and the
  -- data is as long as the sum of the destinations' sizes, which is sent as `Content-Length`.
  pub chunk_body-data :
      (destinations : List FileLocation)
      → destinations ≢ []
      → 0 < max_buffer_size
      → All (IsStored files) destinations
      → (parts : List (List ℕ)) × (r : Reader) × (chunk_body files no_coder max_buffer_size
            destinations
          ≡ ok (parts, r))
        × (flatten parts ≡ data_of files destinations)
        × (r.sent ≡ some (data_of files destinations))
        × (length (flatten parts) ≡ total destinations)
  unfolding chunk_body
  chunk_body-data [] some_file some_room stored = absurd (some_file refl)
  chunk_body-data (first ∷ iter) some_file some_room (s, stored) =
      let same : pending (start first iter s.file) ≡ data_of files (first ∷ iter) =
        rw (s.found, data_of, data_at) in
      let ready : IsReady (start first iter s.file) [] = record {
        readable = s.long_enough;
        stored = stored;
        state = none;
        active = refl;
      } in
      let (parts, r, run, all, sent) =
        stream-data (suc (total (first ∷ iter))) (start first iter s.file) [] some_room
          (omega (arith, ap length same, length-data_of files (first ∷ iter) (s, stored))) ready in
      (
        parts,
        r,
        rw (new_ok first iter s.file s.found, ◌>>=◌) run,
        all ∙ same,
        sent ∙ ap some same,
        ap length (all ∙ same) ∙ length-data_of files (first ∷ iter) (s, stored),
      )
