-- ===== src/Examples/Transfer.antt =====
-- Two small files, uploaded as a chunk and downloaded again: the theorems on
-- babel/src/upload_job.rs, babel/src/download_job.rs and bv_utils/src/lib.rs at concrete inputs.
use blockvisor.Common.{
  ℕ, zero, suc, ◌+◌, ◌-◌, ◌<◌, min, ◌≡◌, refl, ap, ◌∙◌, ◌≢◌, Bool, true, false, none, some, List,
  [], ◌∷◌, ◌++◌, append-nil, arith, length, flatten, All, slice,
}
use mathlib.Core.List.{Perm}
use blockvisor.Archive.{FilePath, FileLocation, Chunk, Checksum, sha1, DownloadManifest}
use blockvisor.Archive.Bytes.{total, locations}
use blockvisor.Coder.{no_coder}
use blockvisor.Common.Outcome.{ok}
use blockvisor.Upload.Sources.{
  SourcesList, whole_file, from_last, sort_by_path, insert_by_path, path_cmp, compare_lists,
}
use blockvisor.Upload.Destinations.{build_destinations}
use blockvisor.Upload.Destinations.Complete.{Takes, build_destinations-Takes}
use blockvisor.Upload.Blueprint.{prepare_manifest_blueprint}
use blockvisor.Upload.Blueprint.Covers.{Splits, chunk_locations, prepare_manifest_blueprint-Splits}
use blockvisor.Upload.Blueprint.Small.{prepare_manifest_blueprint-empty}
use blockvisor.Upload.Reader.{Files, DestinationsReader, chunk_body}
use blockvisor.Upload.Reader.Data.{IsStored, data_of}
use blockvisor.Upload.Reader.Whole.{chunk_body-data}
use blockvisor.Download.{request_failed, ChunkData, end_of_chunk}
use blockvisor.Download.Destinations.Sent.{Sent}
use blockvisor.Download.Parts.{Server, TransferConfig, download_chunk, download_part}
use blockvisor.Download.Parts.Served.{Serves}
use blockvisor.Download.Parts.Delivered.{download_chunk-delivers}

abbrev pub path_a : FilePath
path_a = (97 ∷ []) ∷ []

abbrev pub path_b : FilePath
path_b = (97 ∷ []) ∷ (98 ∷ []) ∷ []

abbrev two_files : List FileLocation
two_files = whole_file path_a 3 ∷ whole_file path_b 2 ∷ []

abbrev two_sources : SourcesList
two_sources = record { total_size = 5; sources = two_files }

abbrev pub same_files : Files
same_files path = some (10 ∷ 11 ∷ 12 ∷ 13 ∷ [])

abbrev pub two_parts : List FileLocation
two_parts = record { path = path_a; pos = 1; size = 3 } ∷ whole_file path_b 2 ∷ []

pub two_parts-IsStored : All (IsStored same_files) two_parts
two_parts-IsStored = (
  record { file = 10 ∷ 11 ∷ 12 ∷ 13 ∷ []; found = refl; long_enough = omega arith },
  (record { file = 10 ∷ 11 ∷ 12 ∷ 13 ∷ []; found = refl; long_enough = omega arith }, tt),
)

abbrev content : List ℕ
content = 11 ∷ 12 ∷ 13 ∷ 10 ∷ 11 ∷ []

abbrev pub a_chunk : Chunk
a_chunk = record {
  index = 0;
  key = "key";
  url = some "url";
  checksum = sha1 content;
  size = 5;
  destinations = two_parts;
}

abbrev pub a_config : TransferConfig
a_config = record {
  max_opened_files = 1024;
  max_runners = 8;
  max_connections = 3;
  max_buffer_size = 2;
  max_retries = 5;
  backoff_base_ms = 500;
}

-- It fails at the first try.
abbrev pub a_server : Server
a_server url pos end zero = none
a_server url pos end (suc attempt) =
    some
      (record { is_success = true; body = slice content pos (end - pos) ∷ []; breaks_off = false })

abbrev pub all_bytes : Checksum → List ℕ → List ℕ
all_bytes checksum bytes = bytes

abbrev pub keeps_running : ℕ → Bool
keeps_running pos = false

pub served :
    (pos : ℕ) → pos < 5 → Serves a_server all_bytes a_config keeps_running a_chunk content pos
unfolding download_part
served pos h =
    let size = min (5 - pos) 2 in
    record {
      tries = 1;
      in_time = omega arith;
      failed = ((request_failed, refl), tt);
      url = "url";
      has_url = refl;
      response = record {
        is_success = true;
        body = slice content pos (pos + size - pos) ∷ [];
        breaks_off = false;
      };
      answer = refl;
      success = refl;
      complete = refl;
      bytes =
          let same : pos + size - pos ≡ size = omega arith in
          append-nil (slice content pos (pos + size - pos)) ∙ ap (slice content pos) same;
    }

pub not_empty : two_parts ≢ []
not_empty e = ground arith

download_chunk-delivers_example :
    (parts : List ChunkData) × (left : List FileLocation) × (download_chunk a_server all_bytes
        no_coder a_config keeps_running a_chunk
      ≡ (parts ++ end_of_chunk a_chunk ∷ [], ok left))
    × Sent content two_parts left parts
download_chunk-delivers_example =
    download_chunk-delivers a_server all_bytes a_config keeps_running a_chunk content served
      (λ pos. refl) (omega arith) refl not_empty refl (omega arith)

chunk_body-data_example :
    (parts : List (List ℕ)) × (r : DestinationsReader no_coder) × (chunk_body same_files no_coder 2
        two_parts
      ≡ ok (parts, r))
    × (flatten parts ≡ data_of same_files two_parts)
    × (r.sent ≡ some (data_of same_files two_parts))
    × (length (flatten parts) ≡ total two_parts)
chunk_body-data_example =
    chunk_body-data same_files 2 two_parts not_empty (omega arith) two_parts-IsStored

build_destinations-Takes_example :
    (ds : List FileLocation) × (left : List FileLocation) × (build_destinations 4 two_files
      ≡ some (ds, left))
    × Takes 4 two_files ds left
build_destinations-Takes_example = build_destinations-Takes 4 two_files

prepare_manifest_blueprint-Splits_example :
    (m : DownloadManifest) × (prepare_manifest_blueprint 2 none two_sources ≡ some m)
    × Splits 2 0 2 3 (from_last two_files) m.chunks
    × Perm (chunk_locations m.chunks) (locations two_files)
prepare_manifest_blueprint-Splits_example =
    prepare_manifest_blueprint-Splits 2 none two_sources (omega arith) (omega arith) refl

last_first : from_last two_files ≡ whole_file path_b 2 ∷ whole_file path_a 3 ∷ []
unfolding from_last sort_by_path insert_by_path path_cmp compare_lists
last_first = refl

prepare_manifest_blueprint-empty_example :
    prepare_manifest_blueprint 8 none two_sources
    ≡ some (record { total_size = 5; compression = none; chunks = [] })
prepare_manifest_blueprint-empty_example =
    prepare_manifest_blueprint-empty 8 none two_sources (whole_file path_b 2)
      (whole_file path_a 3 ∷ []) (omega arith) (omega arith) last_first (omega arith)
