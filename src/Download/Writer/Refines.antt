-- ===== src/Download/Writer/Refines.antt =====
-- The run of the writer of babel/src/download_job.rs, whose open files come and go, and the replay of
-- the parts that it is sent.
use blockvisor.Common.{
  ℕ, ◌≡◌, refl, sym, ap, subst, ◌∙◌, true, none, List, [], ◌∷◌, ◌++◌, map, append-nil, append_assoc,
  arith, if◌then◌else◌, All,
}
use blockvisor.Archive.{Chunk}
use blockvisor.Archive.Files.{Files}
use blockvisor.Download.{ChunkData, file_part, end_of_chunk}
use blockvisor.Download.Writer.{
  Writer, Moment, Handled, close_all_files, handle_chunk_data, after_handled, run_writer,
  new_writer,
}
use blockvisor.Download.Writer.Open.{There}
use blockvisor.Download.Writer.Step.{
  Wrote, written, replay, ended_chunks, Smooth, handle_part-Wrote, handle_end-Wrote,
}

abbrev pub messages_of : List (Moment × ChunkData) → List ChunkData
messages_of messages = map (λ (m : Moment × ChunkData). m.1) messages

-- What a run leaves: the files, the chunks that have ended, and no file open.
pub record Ran (files : Files) (chunks saved : List Chunk) (w : Writer) : Type 0 where
  pub written_files : w.files ≡ files
  pub downloaded : w.downloaded_chunks ≡ chunks
  pub saved_chunks : w.saved_chunks ≡ saved
  pub closed : w.opened_files ≡ []

abbrev pub RunsTo : Files → List Chunk → List Chunk → Handled → Type 0
RunsTo files chunks saved run = (w : Writer) × (run ≡ (w, none)) × Ran files chunks saved w

-- A message that is handled, and the rest.
after-Ran :
    (moment : Moment) (message : ChunkData) (messages : List (Moment × ChunkData)) (w w' : Writer)
    (files : Files) (chunks saved : List Chunk)
    → moment.running ≡ true
    → handle_chunk_data moment message w ≡ (w', none)
    → Wrote files chunks saved w'
    → RunsTo
        (replay (messages_of messages) w'.files)
        (w'.downloaded_chunks ++ ended_chunks (messages_of messages))
        (w'.saved_chunks ++ ended_chunks (messages_of messages))
        (run_writer messages w')
    → RunsTo
        (replay (messages_of messages) files)
        (chunks ++ ended_chunks (messages_of messages))
        (saved ++ ended_chunks (messages_of messages))
        (run_writer ((moment, message) ∷ messages) w)
unfolding run_writer
after-Ran moment message messages w w' files chunks saved running handled t (last, run, r) =
    let ms = messages_of messages in
    (
      last,
      ap
            (λ b.
              if b
              then after_handled (run_writer messages) (handle_chunk_data moment message w)
              else (close_all_files w, none))
            running
          ∙ ap (after_handled (run_writer messages)) handled
          ∙ run,
      record {
        written_files = r.written_files ∙ ap (replay ms) t.written_files;
        downloaded = r.downloaded ∙ ap (λ cs. cs ++ ended_chunks ms) t.downloaded;
        saved_chunks = r.saved_chunks ∙ ap (λ cs. cs ++ ended_chunks ms) t.saved;
        closed = r.closed;
      },
    )

run_writer-Ran :
    (messages : List (Moment × ChunkData)) (w : Writer)
    → All Smooth messages
    → There w.files w.opened_files
    → RunsTo
        (replay (messages_of messages) w.files)
        (w.downloaded_chunks ++ ended_chunks (messages_of messages))
        (w.saved_chunks ++ ended_chunks (messages_of messages))
        (run_writer messages w)
unfolding run_writer
run_writer-Ran [] w smooth there = (
  close_all_files w,
  refl,
  record {
    written_files = refl;
    downloaded = sym (append-nil w.downloaded_chunks);
    saved_chunks = sym (append-nil w.saved_chunks);
    closed = refl;
  },
)
run_writer-Ran ((moment, file_part path pos bytes) ∷ messages) w (s, smooth) there =
    let (w', handled, t) = handle_part-Wrote moment path pos bytes w s there in
    after-Ran moment (file_part path pos bytes) messages w w' (written path pos bytes w.files)
      w.downloaded_chunks w.saved_chunks s.0 handled t (run_writer-Ran messages w' smooth t.there)
run_writer-Ran ((moment, end_of_chunk chunk) ∷ messages) w (s, smooth) there =
    let (w', handled, t) = handle_end-Wrote moment chunk w s there in
    let ms = messages_of messages in
    subst
      (λ cs.
        RunsTo (replay ms w.files) cs (w.saved_chunks ++ chunk ∷ ended_chunks ms)
          (run_writer ((moment, end_of_chunk chunk) ∷ messages) w))
      (append_assoc w.downloaded_chunks (chunk ∷ []) (ended_chunks ms))
      (subst
        (λ cs.
          RunsTo (replay ms w.files) ((w.downloaded_chunks ++ chunk ∷ []) ++ ended_chunks ms) cs
            (run_writer ((moment, end_of_chunk chunk) ∷ messages) w))
        (append_assoc w.saved_chunks (chunk ∷ []) (ended_chunks ms))
        (after-Ran moment (end_of_chunk chunk) messages w w' w.files
          (w.downloaded_chunks ++ chunk ∷ []) (w.saved_chunks ++ chunk ∷ []) s.0 handled t
          (run_writer-Ran messages w' smooth t.there)))

-- Whatever number of files may be open and whenever the messages come, if each message is handled
-- without an error of the system, the run ends without an error, each part is written into the file
-- that its path names as if no file were kept open, in the order of the messages, the chunks that have
-- ended are added in order to those that were downloaded and saved, and no file stays open.
pub run_writer-refines :
    (files : Files) (max_opened_files total : ℕ) (downloaded saved : List Chunk)
    (messages : List (Moment × ChunkData))
    → All Smooth messages
    → RunsTo
        (replay (messages_of messages) files)
        (downloaded ++ ended_chunks (messages_of messages))
        (saved ++ ended_chunks (messages_of messages))
        (run_writer messages (new_writer files max_opened_files total downloaded saved))
run_writer-refines files max_opened_files total downloaded saved messages smooth =
    run_writer-Ran messages (new_writer files max_opened_files total downloaded saved) smooth
      (λ path h. absurd (ground arith))
