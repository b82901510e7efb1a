-- ===== src/Upload/Parallel/Marked.antt =====
-- How `mark_uploaded` (babel/src/upload_job.rs) changes the chunks of a blueprint.
use blockvisor.Common.{
  ℕ, ◌≡◌, sym, ap, subst, ◌≢◌, inl, inr, false, Option, none, some, List, [], ◌∷◌, arith, ◌==◌, All,
  Bool-cases,
}
use blockvisor.Archive.{Chunk}
use blockvisor.Upload.Parallel.{mark_item, mark_uploaded}

abbrev pub indexes : List Chunk → List ℕ
indexes [] = []
indexes (chunk ∷ chunks) = chunk.index ∷ indexes chunks

abbrev pub Distinct : List ℕ → Type 0
Distinct [] = Unit {0}
Distinct (i ∷ is) = All (λ j. j ≢ i) is × Distinct is

-- What holds of the chunks that are marked; their indexes are as before.
abbrev pub Marked : (Chunk → Type 0) → List Chunk → Option (List Chunk) → Type 0
Marked Q items none = Unit {0}
Marked Q items (some marked) = All Q marked × (indexes marked ≡ indexes items)

module _ {P Q : Chunk → Type 0} (chunk : Chunk)
    (keeps : (b : Chunk) → P b → b.index ≢ chunk.index → Q b) (gains : Q chunk) where
  other_items :
      (items : List Chunk) → All (λ j. j ≢ chunk.index) (indexes items) → All P items → All Q items
  other_items [] d h = tt
  other_items (item ∷ items) (d, ds) (h, hs) = (keeps item h d, other_items items ds hs)

  mark_item-Marked :
      (item : Chunk) (items : List Chunk) (rest : Option (List Chunk))
      → item.index ≢ chunk.index
      → P item
      → Marked Q items rest
      → Marked Q (item ∷ items) (mark_item false chunk item items rest)
  mark_item-Marked item items none d h m = tt
  mark_item-Marked item items (some marked) d h (m, same) =
      ((keeps item h d, m), ap (◌∷◌ item.index) same)

  pub mark_uploaded-Marked :
      (items : List Chunk)
      → Distinct (indexes items)
      → All P items
      → Marked Q items (mark_uploaded chunk items)
  mark_uploaded-Marked [] d h = tt
  mark_uploaded-Marked (item ∷ items) (d, ds) (h, hs) =
      elim (Bool-cases (item.index == chunk.index)) [
        | inl e ↦
            let same : item.index ≡ chunk.index = ground arith in
            let others = subst (λ k. All (λ j. j ≢ k) (indexes items)) same d in
            rw (e, Marked)
              ((gains, other_items items others hs), ap (λ k. k ∷ indexes items) (sym same))
        | inr e ↦
            let differ : item.index ≢ chunk.index = λ same. ground arith in
            rw (e, Marked)
              (mark_item-Marked item items (mark_uploaded chunk items) differ h
                (mark_uploaded-Marked items ds hs))
      ]
