-- ===== src/Upload/Blueprint/Small.antt =====
-- The blueprint of babel/src/upload_job.rs for less data than there are slots.
use native.Mathlib.Nat.{div-eq_of_lt}
use blockvisor.Archive.{FileLocation, Compression}
use blockvisor.Upload.Destinations.{build_destinations}
use blockvisor.Upload.Sources.{SourcesList, from_last}
use blockvisor.Upload.Blueprint.{blueprint_loop, prepare_manifest_blueprint}
use blockvisor.Common.{
  ℕ, zero, suc, ◌+◌, ◌-◌, ◌/◌, ◌%◌, ◌<◌, ◌≡◌, true, Option, some, List, [], ◌∷◌, arith, ltb,
}

-- A chunk of no bytes takes nothing of a file that has bytes.
empty_slot :
    (file : FileLocation) (rest : List FileLocation)
    → 0 < file.size
    → build_destinations 0 (file ∷ rest) ≡ some ([], file ∷ rest)
unfolding build_destinations
empty_slot file rest h = ground arith

no_first_chunk :
    (slots last_chunk_size : ℕ) (file : FileLocation) (rest : List FileLocation)
    → 0 < slots
    → 0 < file.size
    → blueprint_loop (suc slots) 0 (suc slots) 0 last_chunk_size (file ∷ rest) ≡ some []
unfolding blueprint_loop
no_first_chunk slots last_chunk_size file rest more_slots some_file =
    let not_last : ltb 0 (suc slots - 1) ≡ true = ground arith in
    rw (not_last, empty_slot file rest some_file, blueprint_loop)

-- Where there are some bytes, but fewer than slots, and the last file in the order of the paths is
-- not empty, `prepare_manifest_blueprint` returns a manifest with no chunk at all, which still
-- gives the size of the data as its total size.
pub prepare_manifest_blueprint-empty :
    (slots : ℕ) (compression : Option Compression) (list : SourcesList) (file : FileLocation)
    (rest : List FileLocation)
    → 0 < list.total_size
    → list.total_size < slots
    → from_last list.sources ≡ file ∷ rest
    → 0 < file.size
    → prepare_manifest_blueprint slots compression list
      ≡ some (record { total_size = list.total_size; compression = compression; chunks = [] })
unfolding prepare_manifest_blueprint
prepare_manifest_blueprint-empty zero compression list file rest some_bytes few last some_file =
    absurd (omega arith)
prepare_manifest_blueprint-empty (suc slots) compression list file rest some_bytes few last
      some_file =
    let no_share : list.total_size / suc slots ≡ 0 = div-eq_of_lt few in
    let none_first =
      no_first_chunk slots (0 + list.total_size % suc slots) file rest (omega arith) some_file in
    rw (no_share, last, none_first, prepare_manifest_blueprint)
