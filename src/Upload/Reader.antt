-- ===== src/Upload/Reader.antt =====
-- `DestinationsReader` of babel/src/upload_job.rs: the bytes of a chunk, read from the files that it
-- is made of, and passed through an encoder. A file system is a function from paths to contents.
-- The hash of the parts is a parameter's business: the bytes that are hashed are kept.
use blockvisor.Archive.{FilePath, FileLocation}
use blockvisor.Archive.Bytes.{total}
pub use blockvisor.Archive.Files.{Files}
use blockvisor.Coder.{Coder}
use blockvisor.Common.Outcome.{Outcome, ok, err, out_of_fuel, ◌>>=◌}
use blockvisor.Common.{
  ℕ, zero, suc, ◌+◌, ◌-◌, min, true, false, ◌&&◌, Option, none, some, List, [], ◌∷◌, ◌++◌, ltb, leb,
  ◌==◌, if◌then◌else◌, length, take, drop, is_empty,
}
pub mod Data
pub mod Steps
pub mod Loop
pub mod Whole

pub data NonRecoverableError : Type 0 where
  data_file_disappeared : FilePath → NonRecoverableError
  read_data_file_failed : NonRecoverableError
  missing_url : NonRecoverableError
  internal_inconsistency : NonRecoverableError
  invalid_manifest : NonRecoverableError

pub record FileDescriptor : Type 0 where
  pub file : List ℕ
  pub offset : ℕ  -- u64
  pub bytes_remaining : ℕ  -- u64

-- `interim_buffer` holds the encoder and the digest, as the bytes that it has been updated with;
-- `sent` is what the digest was made of when the checksum was sent.
pub record DestinationsReader (encoder : Coder) : Type 0 where
  pub iter : List FileLocation
  pub current : FileDescriptor
  pub bytes_read : ℕ  -- u64
  pub interim_buffer : Option (encoder.State × List ℕ)
  pub sent : Option (List ℕ)

-- `FileExt::read_exact_at`: an error where the file ends too early, and none for no bytes at all.
abbrev pub read_exact_at : List ℕ → ℕ → ℕ → Outcome NonRecoverableError (List ℕ)
read_exact_at file offset size =
    if size == 0
    then ok []
    else if leb (offset + size) (length file)
    then ok (take size (drop offset file))
    else err read_data_file_failed

module _ (files : Files) where
  pub open_file : FileLocation → Outcome NonRecoverableError FileDescriptor
  open_file location = elim (files location.path) [
    | none ↦ err (data_file_disappeared location.path)
    | some file ↦
        ok (record { file = file; offset = location.pos; bytes_remaining = location.size })
  ]

  -- The next file, where the current one is used up: `none` is the `break`.
  pub next_file :
      List FileLocation
      → FileDescriptor
      → Outcome NonRecoverableError (Option (List FileLocation × FileDescriptor))
  unfolding open_file
  next_file [] current = ok (if current.bytes_remaining == 0 then none else some ([], current))
  next_file (next ∷ iter) current =
      if current.bytes_remaining == 0
      then (open_file next >>= λ d. ok (some (iter, d)))
      else ok (some (next ∷ iter, current))

  -- `read_data`, on fuel: each round but the last two uses a file up.
  pub read_loop :
      ℕ
      → ℕ
      → List ℕ
      → List FileLocation
      → FileDescriptor
      → Outcome NonRecoverableError (List ℕ × List FileLocation × FileDescriptor)
  unfolding next_file
  read_loop zero max_buffer_size buffer iter current = out_of_fuel
  read_loop (suc fuel) max_buffer_size buffer iter current =
      elim (ltb (length buffer) max_buffer_size) [
        | false ↦ ok (buffer, iter, current)
        | true ↦ next_file iter current >>= elim [
          | none ↦ ok (buffer, iter, current)
          | some (iter', d) ↦
              let size = min d.bytes_remaining (max_buffer_size - length buffer) in
              read_exact_at d.file d.offset size >>= λ bytes.
              read_loop fuel max_buffer_size (buffer ++ bytes) iter'
                (record d { offset = d.offset + size; bytes_remaining = d.bytes_remaining - size })
        ]
      ]

  pub read_data :
      ℕ
      → List FileLocation
      → FileDescriptor
      → Outcome NonRecoverableError (List ℕ × List FileLocation × FileDescriptor)
  unfolding read_loop
  read_data max_buffer_size iter current =
      read_loop (suc (suc (suc (length iter)))) max_buffer_size [] iter current

abbrev or_inconsistent {ℓ} : {A : Type ℓ} → Option A → Outcome NonRecoverableError A
or_inconsistent none = err internal_inconsistency
or_inconsistent (some a) = ok a

module _ (files : Files) (encoder : Coder) (max_buffer_size : ℕ) where
  open encoder use {State, initial, feed, consume, finalize}

  abbrev Reader : Type 0
  Reader = DestinationsReader encoder

  -- `DestinationsReader::new`; its report to the engine where the manifest is corrupted is left out.
  unfoldable pub new : List FileLocation → Outcome NonRecoverableError Reader
  unfolding open_file
  new [] = err invalid_manifest
  new (first ∷ iter) = open_file files first >>= λ current. ok (record {
    iter = iter;
    current = current;
    bytes_read = 0;
    interim_buffer = some (initial, []);
    sent = none;
  })

  -- The end of the chunk: the encoder and the digest are taken and finished.
  finish : State → List ℕ → List ℕ → Reader → Outcome NonRecoverableError (Option (List ℕ) × Reader)
  finish state hashed buffer reader = or_inconsistent (feed state buffer) >>= λ fed.
      or_inconsistent (finalize fed) >>= λ compressed.
      ok (
        some compressed,
        record reader { interim_buffer = none; sent = some (hashed ++ compressed) },
      )

  -- The rounds of `try_next`, on fuel, with the encoder and the digest taken out of the reader.
  next_loop : ℕ → State → List ℕ → Reader → Outcome NonRecoverableError (Option (List ℕ) × Reader)
  unfolding finish
  next_loop zero state hashed reader = out_of_fuel
  next_loop (suc fuel) state hashed reader =
      read_data files max_buffer_size reader.iter reader.current
      >>= λ ((buffer, iter, current) : List ℕ × List FileLocation × FileDescriptor).
          let read = record reader {
            iter = iter;
            current = current;
            bytes_read = reader.bytes_read + length buffer;
          } in
          elim (is_empty iter && (current.bytes_remaining == 0)) [
            | true ↦ finish state hashed buffer read
            | false ↦ or_inconsistent (feed state buffer) >>= λ fed.
                or_inconsistent (consume fed) >>= λ ((compressed, state') : List ℕ × State).
                elim compressed [
                  | [] ↦ next_loop fuel state' hashed read
                  | byte ∷ more ↦ ok (
                    some (byte ∷ more),
                    record read { interim_buffer = some (state', hashed ++ byte ∷ more) },
                  )
                ]
          ]

  -- Each round but the last reads at least one byte.
  unfoldable pub try_next : Reader → Outcome NonRecoverableError (Option (List ℕ) × Reader)
  unfolding next_loop
  try_next reader = elim reader.interim_buffer [
    | none ↦ ok (none, reader)
    | some (state, hashed) ↦
        next_loop (suc (reader.current.bytes_remaining + total reader.iter)) state hashed reader
  ]

  -- The stream of the parts, up to its end or its first error, on fuel.
  unfoldable pub stream : ℕ → Reader → Outcome NonRecoverableError (List (List ℕ) × Reader)
  stream zero reader = out_of_fuel
  stream (suc fuel) reader = try_next reader >>= λ ((part, reader') : Option (List ℕ) × Reader).
      elim part [
        | none ↦ ok ([], reader')
        | some bytes ↦ stream fuel reader' >>= λ ((parts, last) : List (List ℕ) × Reader).
            ok (bytes ∷ parts, last)
      ]

  -- The reader of a chunk, and the parts that the request's body takes from it.
  pub chunk_body : List FileLocation → Outcome NonRecoverableError (List (List ℕ) × Reader)
  chunk_body destinations =
      new destinations >>= λ reader. stream (suc (suc (total destinations))) reader
