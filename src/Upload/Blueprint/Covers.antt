-- ===== src/Upload/Blueprint/Covers.antt =====
-- The blueprint of babel/src/upload_job.rs maps every byte of the sources to one place in one chunk.
use mathlib.Core.List.{Perm}
use mathlib.Core.Path.{ap₂}
use native.Mathlib.Nat.{div-add-mod, le-div_iff_mul-le}
use blockvisor.Archive.{FileLocation, Chunk, Compression, DownloadManifest}
use blockvisor.Archive.Bytes.{Location, locations, total, length-locations}
use blockvisor.Upload.Destinations.{build_destinations}
use blockvisor.Upload.Destinations.Complete.{Takes, build_destinations-Takes}
use blockvisor.Upload.Sources.{SourcesList, from_last}
use blockvisor.Upload.Sources.Total.{total-from_last, locations-from_last-perm}
use blockvisor.Upload.Blueprint.{blank_chunk, blueprint_loop, prepare_manifest_blueprint}
use blockvisor.Common.{
  ℕ, zero, suc, ◌+◌, ◌-◌, ◌*◌, ◌/◌, ◌%◌, ◌≤◌, ◌<◌, ◌≡◌, refl, sym, ap, ◌∙◌, ◌≢◌, Option, some, List,
  [], ◌∷◌, ◌++◌, map, arith, ltb, if◌then◌else◌, length, length-append,
}

abbrev pub chunk_locations : List Chunk → List (Location)
chunk_locations [] = []
chunk_locations (c ∷ cs) = locations c.destinations ++ chunk_locations cs

-- `n` numbers from `i` on.
abbrev pub count_from : ℕ → ℕ → List ℕ
count_from i zero = []
count_from i (suc n) = i ∷ count_from (i + 1) n

-- `n` sizes, of which the last one differs.
abbrev pub even_but_last : ℕ → ℕ → ℕ → List ℕ
even_but_last zero chunk_size last_chunk_size = []
even_but_last (suc zero) chunk_size last_chunk_size = last_chunk_size ∷ []
even_but_last (suc (suc n)) chunk_size last_chunk_size =
    chunk_size ∷ even_but_last (suc n) chunk_size last_chunk_size

pub record Splits (n index chunk_size last_chunk_size : ℕ) (sources : List FileLocation)
    (chunks : List Chunk) : Type 0 where
  pub covers : chunk_locations chunks ≡ locations sources
  pub indexes : map (λ (c : Chunk). c.index) chunks ≡ count_from index n
  pub sizes :
      map (λ (c : Chunk). total c.destinations) chunks ≡ even_but_last n chunk_size last_chunk_size

-- What is taken and what is left make up the sources.
Takes-total :
    (room : ℕ) (sources ds left : List FileLocation)
    → Takes room sources ds left
    → total ds + total left ≡ total sources
Takes-total room sources ds left t = omega (
  arith,
  ap length t.in_order,
  length-append (locations ds) (locations left),
  length-locations ds,
  length-locations left,
  length-locations sources,
)

no_slots :
    (index slots chunk_size last_chunk_size : ℕ) (sources : List FileLocation)
    → blueprint_loop 0 index slots chunk_size last_chunk_size sources ≡ some []
unfolding blueprint_loop
no_slots index slots chunk_size last sources = refl

-- A slot that gets something makes a chunk.
slot_step :
    (n index slots chunk_size last_chunk_size size : ℕ) (sources ds left : List FileLocation)
    (chunks : List Chunk)
    → (if ltb index (slots - 1) then chunk_size else last_chunk_size) ≡ size
    → ds ≢ []
    → build_destinations size sources ≡ some (ds, left)
    → blueprint_loop n (index + 1) slots chunk_size last_chunk_size left ≡ some chunks
    → blueprint_loop (suc n) index slots chunk_size last_chunk_size sources
      ≡ some (blank_chunk index ds ∷ chunks)
unfolding blueprint_loop
slot_step n index slots chunk_size last size sources [] left chunks e some_ds b r =
    absurd (some_ds refl)
slot_step n index slots chunk_size last size sources (d ∷ ds) left chunks e some_ds b r =
    rw (e, b, r, blueprint_loop)

-- The loop with `n` slots left, each of which has its share.
abbrev Fills : ℕ → ℕ → ℕ → ℕ → ℕ → List FileLocation → Type 0
Fills n index slots chunk_size last_chunk_size sources =
    (chunks : List Chunk) × (blueprint_loop n index slots chunk_size last_chunk_size sources
      ≡ some chunks)
    × Splits n index chunk_size last_chunk_size sources chunks

last_slot :
    (index slots chunk_size last_chunk_size : ℕ) (sources : List FileLocation)
    → index + 1 ≡ slots
    → total sources ≡ last_chunk_size
    → 0 < last_chunk_size
    → Fills 1 index slots chunk_size last_chunk_size sources
last_slot index slots chunk_size last sources at_end all some_bytes =
    let (ds, left, b, t) = build_destinations-Takes last sources in
    let nothing_left : left ≡ [] = t.drained (omega arith) in
    (
      blank_chunk index ds ∷ [],
      slot_step 0 index slots chunk_size last last sources ds left [] (ground arith)
          (λ e. absurd (omega (arith, ap total e, t.filled))) b
          (no_slots (index + 1) slots chunk_size last left),
      record {
        covers = ap (λ l. locations ds ++ locations l) (sym nothing_left) ∙ t.in_order;
        indexes = refl;
        sizes = ap (λ n. n ∷ []) (omega (arith, t.filled));
      },
    )

blueprint_loop-Splits :
    (n index slots chunk_size last_chunk_size : ℕ) (sources : List FileLocation)
    → index + suc n ≡ slots
    → total sources ≡ n * chunk_size + last_chunk_size
    → 0 < chunk_size
    → 0 < last_chunk_size
    → Fills (suc n) index slots chunk_size last_chunk_size sources
blueprint_loop-Splits zero index slots chunk_size last sources e all some_bytes some_last =
    last_slot index slots chunk_size last sources (omega arith) (omega arith) some_last
blueprint_loop-Splits (suc n) index slots chunk_size last sources e all some_bytes some_last =
    let (ds, left, b, t) = build_destinations-Takes chunk_size sources in
    let taken : total ds ≡ chunk_size = omega (arith, t.filled) in
    let (chunks, r, rest) =
      blueprint_loop-Splits n (index + 1) slots chunk_size last left (omega arith)
        (omega (arith, Takes-total chunk_size sources ds left t)) some_bytes some_last in
    (
      blank_chunk index ds ∷ chunks,
      slot_step (suc n) index slots chunk_size last chunk_size sources ds left chunks (ground arith)
          (λ e. absurd (omega (arith, ap total e))) b r,
      record {
        covers = ap (◌++◌ (locations ds)) rest.covers ∙ t.in_order;
        indexes = ap (◌∷◌ index) rest.indexes;
        sizes = ap₂ ◌∷◌ taken rest.sizes;
      },
    )

some_share : (size slots : ℕ) → 0 < slots → slots ≤ size → 0 < size / slots
some_share size slots h k = (le-div_iff_mul-le h).1 (omega arith)

-- With at least one byte for each slot, `prepare_manifest_blueprint` returns a manifest that has
-- one chunk for each slot, numbered from 0. All chunks have the same size, but that the last has
-- the remainder too, and their destinations together are the bytes of the sources, from the last
-- file in the order of the paths to the first: a permutation of the bytes of the listed files.
pub prepare_manifest_blueprint-Splits :
    (slots : ℕ) (compression : Option Compression) (list : SourcesList)
    → 0 < slots
    → slots ≤ list.total_size
    → total list.sources ≡ list.total_size
    → (m : DownloadManifest) × (prepare_manifest_blueprint slots compression list ≡ some m)
      × Splits slots 0
          (list.total_size / slots)
          (list.total_size / slots + list.total_size % slots)
          (from_last list.sources)
          m.chunks
      × Perm (chunk_locations m.chunks) (locations list.sources)
unfolding prepare_manifest_blueprint
prepare_manifest_blueprint-Splits zero compression list some_slots enough known =
    absurd (omega arith)
prepare_manifest_blueprint-Splits (suc n) compression list some_slots enough known =
    let (chunks, r, splits) =
      blueprint_loop-Splits n 0 (suc n) (list.total_size / suc n)
        (list.total_size / suc n + list.total_size % suc n) (from_last list.sources) (omega arith)
        (omega (arith, div-add-mod list.total_size (suc n), total-from_last list.sources))
        (some_share list.total_size (suc n) (omega arith) enough)
        (omega (arith, some_share list.total_size (suc n) (omega arith) enough)) in
    (
      record { total_size = list.total_size; compression = compression; chunks = chunks },
      rw (r, prepare_manifest_blueprint),
      splits,
      rw splits.covers (locations-from_last-perm list.sources),
    )
