-- ===== src/Command/Context/Rotation.antt =====
-- context.go: the rotation of the log file. The files are numbered as `os.OpenFile` opens them.
use ffstream.Base.{
  ℕ, suc, ◌≡◌, refl, Bool, true, false, Option, none, some, List, [], ◌∷◌, snoc, ◌∙◌, ap, ==_iff,
  if◌then◌else◌, ◌==◌, arith,
}

-- Where the log goes: to the standard error alone, or to a file as well.
pub data LogOutput : Type 0 where
  standard_error : LogOutput
  and_file : ℕ → LogOutput

-- How many files were opened so far, which are open, what `closeFile` closes, and the output.
pub record LogRotation : Type 0 where
  pub opened : ℕ
  pub open_files : List ℕ
  pub close_file : Option ℕ
  pub output : LogOutput

abbrev pub no_file : LogRotation
no_file = record { opened = 0; open_files = []; close_file = none; output = standard_error }

abbrev pub remove_file : ℕ → List ℕ → List ℕ
remove_file f [] = []
remove_file f (g ∷ gs) = if f == g then gs else g ∷ remove_file f gs

abbrev pub close_open_file : LogRotation → Option ℕ → LogRotation
close_open_file r none = r
close_open_file r (some f) = record r { open_files = remove_file f r.open_files; close_file = none }

-- What `rotateFunc` does once the file is opened.
abbrev pub use_file : LogRotation → LogRotation
use_file r = record {
  opened = suc r.opened;
  open_files = r.opened ∷ r.open_files;
  close_file = some r.opened;
  output = and_file r.opened;
}

-- `rotateFunc`; the argument says whether the file can be opened.
unfoldable pub rotate : Bool → LogRotation → LogRotation
rotate opens r =
    let closed = close_open_file r r.close_file in if opens then use_file closed else closed

-- The first call and those of the ticker.
unfoldable pub rotate_all : List Bool → LogRotation → LogRotation
rotate_all [] r = r
rotate_all (opens ∷ rest) r = rotate_all rest (rotate opens r)

abbrev pub to_list : Option ℕ → List ℕ
to_list none = []
to_list (some f) = f ∷ []

-- The open files are what `closeFile` closes.
pub IsTight : LogRotation → Type 0
IsTight r = r.open_files ≡ to_list r.close_file

abbrev at : ℕ → List ℕ → Option ℕ → LogOutput → LogRotation
at n files c out = record { opened = n; open_files = files; close_file = c; output = out }

close_lem :
    (n : ℕ) (files : List ℕ) (c : Option ℕ) (out : LogOutput)
    → files ≡ to_list c
    → close_open_file (at n files c out) c ≡ at n [] none out
close_lem n files none out h = ap (λ fs. at n fs none out) h
close_lem n files (some f) out h = rw h (ground (arith, ==_iff f f))

-- What a rotation leaves, of what it found.
abbrev rotated : Bool → LogRotation → LogRotation
rotated true r = at (suc r.opened) (r.opened ∷ []) (some r.opened) (and_file r.opened)
rotated false r = at r.opened [] none r.output

rotate_lem : (opens : Bool) (r : LogRotation) → IsTight r → rotate opens r ≡ rotated opens r
unfolding rotate IsTight
rotate_lem true r h = ap use_file (close_lem r.opened r.open_files r.close_file r.output h)
rotate_lem false r h = close_lem r.opened r.open_files r.close_file r.output h

rotate-IsTight : (opens : Bool) (r : LogRotation) → IsTight r → IsTight (rotate opens r)
unfolding IsTight
rotate-IsTight true r h = rw (rotate_lem true r h) refl
rotate-IsTight false r h = rw (rotate_lem false r h) refl

rotate_all-IsTight :
    (rounds : List Bool) (r : LogRotation) → IsTight r → IsTight (rotate_all rounds r)
unfolding rotate_all
rotate_all-IsTight [] r h = h
rotate_all-IsTight (opens ∷ rest) r h =
    rotate_all-IsTight rest (rotate opens r) (rotate-IsTight opens r h)

rotate_all-snoc :
    (rounds : List Bool) (opens : Bool) (r : LogRotation)
    → rotate_all (snoc rounds opens) r ≡ rotate opens (rotate_all rounds r)
unfolding rotate_all
rotate_all-snoc [] opens r = refl
rotate_all-snoc (first ∷ rest) opens r = rotate_all-snoc rest opens (rotate first r)

-- However often the log was rotated, with whatever outcomes: after a rotation that opens its file, the
-- log goes to that file, which is the only one open; after one that does not, no file is open and the
-- log goes where it went before; so that after one that does and then one that does not, the log goes
-- to a file that is closed.
pub rotate_all_lem :
    (rounds : List Bool)
    → let r = rotate_all rounds no_file in
      let after = rotate_all (snoc rounds true) no_file in
      let failed = rotate_all (snoc rounds false) no_file in
      let lost = rotate_all (snoc (snoc rounds true) false) no_file in
      (after.open_files ≡ r.opened ∷ [])
      × (after.output ≡ and_file r.opened)
      × (failed.open_files ≡ [])
      × (failed.output ≡ r.output)
      × (lost.open_files ≡ [])
      × (lost.output ≡ and_file r.opened)
unfolding IsTight
rotate_all_lem rounds =
    let start : IsTight no_file = refl in
    let tight = rotate_all-IsTight rounds no_file start in
    let tight' = rotate_all-IsTight (snoc rounds true) no_file start in
    let r = rotate_all rounds no_file in
    let e = rotate_all-snoc rounds true no_file ∙ rotate_lem true r tight in
    let e' = rotate_all-snoc rounds false no_file ∙ rotate_lem false r tight in
    let e'' =
      rotate_all-snoc (snoc rounds true) false no_file
      ∙ rotate_lem false (rotate_all (snoc rounds true) no_file) tight' in
    (
      ap (λ x. x.open_files) e,
      ap (λ x. x.output) e,
      ap (λ x. x.open_files) e',
      ap (λ x. x.output) e',
      ap (λ x. x.open_files) e'',
      ap (λ x. x.output) e'' ∙ ap (λ x. x.output) e,
    )
