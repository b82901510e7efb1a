-- ===== src/Upload/Destinations/Complete.antt =====
-- What one call of `build_destinations` (babel/src/upload_job.rs) takes and leaves.
use blockvisor.Common.{
  ℕ, zero, suc, ◌+◌, ◌-◌, ◌≤◌, ◌<◌, min, ◌≡◌, refl, sym, ap, ◌∙◌, ◌≢◌, some, List, [], ◌∷◌, ◌++◌,
  append_assoc, arith, length, append-nil,
}
use native.Mathlib.Decide.{dec_le, dec_lt}
use blockvisor.Archive.{FileLocation}
use blockvisor.Archive.Bytes.{locations, total, range, range-append}
use blockvisor.Upload.Destinations.{part, build_loop, build_destinations}

-- `ds` are the next `room` bytes of `sources`, as far as there are any, and `left` is the rest.
pub record Takes (room : ℕ) (sources ds left : List FileLocation) : Type 0 where
  pub in_order : locations ds ++ locations left ≡ locations sources
  pub filled : total ds ≡ min room (total sources)
  pub drained : total sources ≤ room → left ≡ []
  pub progress : sources ≢ [] → 0 < room → ds ≢ []

-- A file with bytes left stops the loop when the chunk is full.
full_stops :
    (fuel chunk_size : ℕ) (file : FileLocation) (rest : List FileLocation)
    → 0 < file.size
    → build_loop (suc fuel) chunk_size chunk_size (file ∷ rest) ≡ some ([], file ∷ rest)
unfolding build_loop
full_stops fuel chunk_size file rest h = ground arith

-- The file fits: it is used up, and the loop goes on with the rest.
whole_step :
    (fuel chunk_size bytes : ℕ) (file : FileLocation) (rest ds left : List FileLocation)
    → bytes ≤ chunk_size
    → file.size ≤ chunk_size - bytes
    → build_loop fuel chunk_size (bytes + file.size) rest ≡ some (ds, left)
    → build_loop (suc fuel) chunk_size bytes (file ∷ rest) ≡ some (part file file.size ∷ ds, left)
unfolding build_loop
whole_step fuel chunk_size bytes file rest ds left h fits e = ground arith

-- The file does not fit: its beginning fills the chunk, and the loop stops.
split_step :
    (fuel chunk_size bytes room : ℕ) (file : FileLocation) (rest : List FileLocation)
    → bytes + room ≡ chunk_size
    → 0 < room
    → room < file.size
    → build_loop (suc (suc fuel)) chunk_size bytes (file ∷ rest)
      ≡ some (
        part file room ∷ [],
        record { path = file.path; pos = file.pos + room; size = file.size - room } ∷ rest,
      )
unfolding build_loop
split_step fuel chunk_size bytes room file rest h some_room larger = ground arith

nil-Takes : (room : ℕ) → Takes room [] [] []
nil-Takes room = record {
  in_order = refl;
  filled = omega arith;
  drained = λ _. refl;
  progress = λ h _. absurd (h refl);
}

full-Takes :
    (file : FileLocation) (rest : List FileLocation)
    → 0 < file.size
    → Takes 0 (file ∷ rest) [] (file ∷ rest)
full-Takes file rest h = record {
  in_order = refl;
  filled = omega arith;
  drained = λ d. absurd (omega arith);
  progress = λ _ p. absurd (omega arith);
}

whole-Takes :
    (room : ℕ) (file : FileLocation) (rest ds left : List FileLocation)
    → file.size ≤ room
    → Takes (room - file.size) rest ds left
    → Takes room (file ∷ rest) (part file file.size ∷ ds) left
whole-Takes room file rest ds left h t = record {
  in_order =
      append_assoc (range file.path file.pos file.size) (locations ds) (locations left)
      ∙ ap (◌++◌ (range file.path file.pos file.size)) t.in_order;
  filled = omega (arith, t.filled);
  drained = λ d. t.drained (omega arith);
  progress = λ _ _ e. cc;
}

split-Takes :
    (room : ℕ) (file : FileLocation) (rest : List FileLocation)
    → 0 < room
    → room < file.size
    → Takes room
        (file ∷ rest)
        (part file room ∷ [])
        (record { path = file.path; pos = file.pos + room; size = file.size - room } ∷ rest)
split-Takes room file rest some_room larger = record {
  in_order = rw (append-nil (range file.path file.pos room)) (
      sym (
        append_assoc (range file.path file.pos room)
          (range file.path (file.pos + room) (file.size - room)) (locations rest))
      ∙ ap (λ r. r ++ locations rest)
          (range-append file.path file.pos room (file.size - room) (file.pos + room) file.size refl
            (omega arith)));
  filled = omega arith;
  drained = λ d. absurd (omega arith);
  progress = λ _ _ e. cc;
}

-- A run of the loop with enough fuel.
abbrev Runs : ℕ → ℕ → ℕ → ℕ → List FileLocation → Type 0
Runs fuel chunk_size bytes room sources =
    (ds : List FileLocation) × (left : List FileLocation) × (build_loop fuel chunk_size bytes
        sources
      ≡ some (ds, left))
    × Takes room sources ds left

no_sources : (fuel chunk_size bytes : ℕ) → build_loop (suc fuel) chunk_size bytes [] ≡ some ([], [])
unfolding build_loop
no_sources fuel chunk_size bytes = refl

build_loop-Takes :
    (fuel chunk_size bytes room : ℕ) (sources : List FileLocation)
    → bytes + room ≡ chunk_size
    → suc (length sources) < fuel
    → Runs fuel chunk_size bytes room sources
build_loop-Takes zero chunk_size bytes room sources e enough = absurd (omega arith)
build_loop-Takes (suc fuel) chunk_size bytes room [] e enough =
    ([], [], no_sources fuel chunk_size bytes, nil-Takes room)
build_loop-Takes (suc zero) chunk_size bytes room (file ∷ rest) e enough = absurd (omega arith)
build_loop-Takes (suc (suc fuel)) chunk_size bytes room (file ∷ rest) e enough =
    elim (dec_le file.size room) [
      | yes fits ↦
          let (ds, left, run, t) =
            build_loop-Takes (suc fuel) chunk_size (bytes + file.size) (room - file.size) rest
              (omega arith) (omega arith) in
          (
            part file file.size ∷ ds,
            left,
            whole_step (suc fuel) chunk_size bytes file rest ds left (omega arith) (omega arith)
                run,
            whole-Takes room file rest ds left fits t,
          )
      | no larger ↦ elim (dec_lt 0 room) [
        | yes some_room ↦ (
          part file room ∷ [],
          record { path = file.path; pos = file.pos + room; size = file.size - room } ∷ rest,
          split_step fuel chunk_size bytes room file rest e some_room (omega arith),
          split-Takes room file rest some_room (omega arith),
        )
        | no full ↦
            let no_room : room ≡ 0 = omega arith in
            let at_end : bytes ≡ chunk_size = omega arith in
            rw (no_room, at_end)
              (
                [],
                file ∷ rest,
                full_stops (suc fuel) chunk_size file rest (omega arith),
                full-Takes file rest (omega arith),
              )
      ]
    ]

-- A call of `build_destinations` returns. It takes the next `chunk_size` bytes of the sources, in
-- order and as far as there are any, leaves the bytes that follow them, leaves no source where
-- `chunk_size` is no less than all that they hold, and takes something from sources that are
-- there if `chunk_size` is not 0.
pub build_destinations-Takes :
    (chunk_size : ℕ) (sources : List FileLocation)
    → (ds : List FileLocation) × (left : List FileLocation) × (build_destinations chunk_size sources
        ≡ some (ds, left))
      × Takes chunk_size sources ds left
unfolding build_destinations
build_destinations-Takes chunk_size sources =
    build_loop-Takes (length sources + 2) chunk_size 0 chunk_size sources (omega arith)
      (omega arith)
