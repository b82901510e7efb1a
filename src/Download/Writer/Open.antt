-- ===== src/Download/Writer/Open.antt =====
-- The files that the writer of babel/src/download_job.rs has open: they are there.
use blockvisor.Common.{
  ℕ, ◌≡◌, refl, subst, inl, inr, true, ◌||◌, Option, none, some, List, [], ◌∷◌, ◌++◌, arith,
  Bool-cases,
}
use blockvisor.Archive.{FilePath}
use blockvisor.Archive.Files.{Files, same_path, same_path→eq, put}
use blockvisor.Download.Writer.{
  Opened, is_open, touch, oldest, close, close_oldest, make_room, create_file,
}

-- Each file that is open is there.
abbrev pub There : Files → List Opened → Type 0
There files opened =
    (path : FilePath) → is_open path opened ≡ true → (file : List ℕ) × (files path ≡ some file)

pub is_open-touch :
    (path other : FilePath) (now : ℕ) (opened : List Opened)
    → is_open path (touch other now opened) ≡ is_open path opened
is_open-touch path other now [] = refl
is_open-touch path other now (entry ∷ opened) = ground (arith, is_open-touch path other now opened)

pub is_open-close :
    (path other : FilePath) (opened : List Opened)
    → is_open path (close other opened) ≡ true
    → is_open path opened ≡ true
is_open-close path other [] h = h
is_open-close path other (entry ∷ opened) h = ground (arith, is_open-close path other opened)

is_open-close_oldest :
    (path : FilePath) (last : Option Opened) (opened : List Opened)
    → is_open path (close_oldest last opened) ≡ true
    → is_open path opened ≡ true
is_open-close_oldest path none opened h = h
is_open-close_oldest path (some entry) opened h = is_open-close path entry.0 opened h

pub is_open-make_room :
    (path : FilePath) (n : ℕ) (opened : List Opened)
    → is_open path (make_room n opened) ≡ true
    → is_open path opened ≡ true
unfolding make_room
is_open-make_room path n opened h = ground (arith, is_open-close_oldest path (oldest opened) opened)

pub is_open-append :
    (path other : FilePath) (now : ℕ) (opened : List Opened)
    → is_open path (opened ++ (other, now) ∷ []) ≡ (is_open path opened || same_path other path)
is_open-append path other now [] = ground arith
is_open-append path other now (entry ∷ opened) =
    ground (arith, is_open-append path other now opened)

pub There-put :
    (path : FilePath) (file : List ℕ) (files : Files) (opened : List Opened)
    → There files opened
    → There (put path file files) opened
There-put path file files opened there other h = elim (Bool-cases (same_path path other)) [
  | inl e ↦ (file, rw e)
  | inr e ↦ let (old, found) = there other h in (old, rw e found)
]

pub There-create_file :
    (path : FilePath) (now : ℕ) (files : Files) (opened : List Opened) (old : Option (List ℕ))
    → files path ≡ old
    → There files opened
    → There (create_file old path files) (opened ++ (path, now) ∷ [])
There-create_file path now files opened none e there other h =
    elim (Bool-cases (same_path path other)) [
      | inl same ↦ ([], rw same)
      | inr differs ↦
          let (old, found) = there other (ground (arith, is_open-append other path now opened)) in
          (old, rw differs found)
    ]
There-create_file path now files opened (some file) e there other h =
    elim (Bool-cases (same_path path other)) [
      | inl same ↦ (file, subst (λ p. files p ≡ some file) (same_path→eq path other same) e)
      | inr differs ↦ there other (ground (arith, is_open-append other path now opened))
    ]
