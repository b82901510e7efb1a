-- ===== src/Roundtrip/Stored.antt =====
-- A chunk on its whole way: babel/src/upload_job.rs reads it from files, `ChunkDownloader` of
-- babel/src/download_job.rs receives it, and `Writer` writes it into files elsewhere.
use blockvisor.Common.{
  ℕ, ◌<◌, ◌≡◌, sym, ap, subst, ◌∙◌, ◌≢◌, Bool, false, none, List, [], ◌∷◌, ◌++◌, append-nil, All,
}
use blockvisor.Archive.{Chunk, Checksum}
use blockvisor.Archive.Bytes.{Location, total, locations}
use blockvisor.Archive.Files.{Files, byte_at, Holds}
use blockvisor.Coder.{no_coder}
use blockvisor.Upload.Reader.Data.{IsStored, data_of}
use blockvisor.Download.{ChunkData, end_of_chunk}
use blockvisor.Download.Destinations.Sent.{
  where_written, what_written, where_written-append, what_written-append,
}
use blockvisor.Download.Parts.{Server, TransferConfig, download_chunk, expected_bytes}
use blockvisor.Download.Parts.Served.{Serves}
use blockvisor.Download.Writer.{Writer, Moment, run_writer, new_writer}
use blockvisor.Download.Writer.Step.{Smooth}
use blockvisor.Download.Writer.Refines.{messages_of}
use blockvisor.Download.Writer.Bytes.{AllDifferent, run_writer-Holds}
use blockvisor.Roundtrip.{download-upload}

abbrev pub SameAt : Files → Files → List Location → Type 0
SameAt files files' places =
    All (λ (place : Location). byte_at files' place ≡ byte_at files place) places

Holds-SameAt :
    (files files' : Files) (places : List Location) (bytes : List ℕ)
    → Holds files places bytes
    → Holds files' places bytes
    → SameAt files files' places
Holds-SameAt files files' [] [] h k = tt
Holds-SameAt files files' [] (b ∷ bytes) h k = absurd h
Holds-SameAt files files' (p ∷ places) [] h k = absurd h
Holds-SameAt files files' (p ∷ places) (b ∷ bytes) (e, h) (e', k) =
    (e' ∙ sym e, Holds-SameAt files files' places bytes h k)

-- A chunk, not compressed, of files that are there and long enough, of the size and with the checksum
-- that the upload gives it, and no two of whose places are the same. The server has what the upload
-- has read, the download is not stopped, and the writer handles each message of it without an error
-- of the system. Then at each place of the chunk the files that the writer has written, whatever they
-- were before, agree with the files that were uploaded.
pub stored-uploaded :
    (files target : Files) (server : Server) (digest : Checksum → List ℕ → List ℕ)
    (config : TransferConfig) (stopped : ℕ → Bool) (chunk : Chunk) (max_opened_files chunks : ℕ)
    (messages : List (Moment × ChunkData))
    → chunk.destinations ≢ []
    → All (IsStored files) chunk.destinations
    → chunk.size ≡ total chunk.destinations
    → digest chunk.checksum (data_of files chunk.destinations) ≡ expected_bytes chunk.checksum
    → 0 < config.max_buffer_size
    → ((pos : ℕ) → stopped pos ≡ false)
    → ((pos : ℕ)
        → pos < chunk.size
        → Serves server digest config stopped chunk (data_of files chunk.destinations) pos)
    → AllDifferent (locations chunk.destinations)
    → messages_of messages ≡ (download_chunk server digest no_coder config stopped chunk).0
    → All Smooth messages
    → (w : Writer) × (run_writer messages (new_writer target max_opened_files chunks [] [])
        ≡ (w, none))
      × SameAt files w.files (locations chunk.destinations)
stored-uploaded files target server digest config stopped chunk max_opened_files chunks messages
      some_file stored size right some_room keeps_running served distinct sent smooth =
    let (body, reader, _, _, parts, left, run, _, places, held) =
      download-upload files server digest config stopped chunk some_file stored size right some_room
        keeps_running served in
    let last = end_of_chunk chunk ∷ [] in
    let ms : messages_of messages ≡ parts ++ last = sent ∙ ap (λ r. r.0) run in
    let where_sent : where_written (messages_of messages) ≡ where_written parts =
      ap where_written ms ∙ where_written-append parts last ∙ append-nil (where_written parts) in
    let what_sent : what_written (messages_of messages) ≡ what_written parts =
      ap what_written ms ∙ what_written-append parts last ∙ append-nil (what_written parts) in
    let (w, wrote, now_held) =
      run_writer-Holds target max_opened_files chunks [] [] messages smooth
        (subst AllDifferent (sym (where_sent ∙ places)) distinct) in
    let now_held' =
      subst (λ p. Holds w.files p (what_written parts)) where_sent
        (subst (λ b. Holds w.files (where_written (messages_of messages)) b) what_sent now_held) in
    (
      w,
      wrote,
      subst (SameAt files w.files) places
          (Holds-SameAt files w.files (where_written parts) (what_written parts) held now_held'),
    )
