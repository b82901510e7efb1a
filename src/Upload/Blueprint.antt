-- ===== src/Upload/Blueprint.antt =====
-- `Uploader::new` and `prepare_manifest_blueprint` of babel/src/upload_job.rs: the number of chunks,
-- and the manifest that maps the files to them.
use Prim.Native.String.{String}
use mathlib.Core.Option
use blockvisor.Archive.{FileLocation, Chunk, sha1, Compression, DownloadManifest}
use blockvisor.Upload.Destinations.{build_destinations}
use blockvisor.Upload.Sources.{SourcesList, from_last}
use blockvisor.Common.{
  ℕ, zero, suc, ◌+◌, ◌-◌, ◌/◌, ◌%◌, ◌^◌, Option, none, some, List, [], ◌∷◌, map, ltb, if◌then◌else◌,
}
pub mod Covers
pub mod Small

-- The slots that `Uploader::new` sets: as configured, but not 0, or one for each 500 MB begun.
pub total_slots : Option ℕ → ℕ → Option ℕ
total_slots none total_size = some ((1 + total_size / 500_000_000) % 2 ^ 32)
total_slots (some zero) total_size = none
total_slots (some (suc n)) total_size = some (suc n)

abbrev zeros : ℕ → List ℕ
zeros zero = []
zeros (suc n) = 0 ∷ zeros n

-- The checksum and the size are not known yet.
abbrev pub blank_chunk : ℕ → List FileLocation → Chunk
blank_chunk index destinations = record {
  index = index;
  key = "";
  url = none;
  checksum = sha1 (zeros 20);
  size = 0;
  destinations = destinations;
}

-- The `while` loop over the slots that are left. `none` would be a call that does not return.
blueprint_loop : ℕ → ℕ → ℕ → ℕ → ℕ → List FileLocation → Option (List Chunk)
blueprint_loop zero index slots chunk_size last_chunk_size sources = some []
blueprint_loop (suc left) index slots chunk_size last_chunk_size sources =
    let size = if ltb index (slots - 1) then chunk_size else last_chunk_size in
    elim (build_destinations size sources) [
      | none ↦ none
      | some (destinations, sources') ↦ elim destinations [
        | [] ↦ some []
        | d ∷ ds ↦
            Option.map (λ (cs : List Chunk). blank_chunk index (d ∷ ds) ∷ cs)
              (blueprint_loop left (index + 1) slots chunk_size last_chunk_size sources')
      ]
    ]

unfoldable pub prepare_manifest_blueprint :
    ℕ → Option Compression → SourcesList → Option DownloadManifest
unfolding blueprint_loop
prepare_manifest_blueprint slots compression list =
    let chunk_size = list.total_size / slots in
    let last_chunk_size = chunk_size + list.total_size % slots in
    Option.map
      (λ (chunks : List Chunk). record {
        total_size = list.total_size;
        compression = compression;
        chunks = chunks;
      })
      (blueprint_loop slots 0 slots chunk_size last_chunk_size (from_last list.sources))
