-- ===== src/Captures/Upload.antt =====
-- The files that are dropped on the capture list: `upload` of src/web/app.js, over the directory of the
-- server and its own `upload` in src/main.go, which refuses a name that is there already.
mod Tests
use webshark.Prelude.{
  Text, codes, ◌≡◌, refl, ap, ap₂, sym, ◌∙◌, ◌⊎◌, Bool, true, false, Option, none, some, List, [],
  ◌∷◌, ◌++◌, ◌==◌, text_eq, if◌then◌else◌, contains, Bool-cases, Option-cases, inl, inr, map,
}
use webshark.Captures.Names.{upload_name}

-- What came of an upload: the names that were posted, the note at its end, and whether the list was
-- read again.
pub record Uploaded : Type 0 where
  pub posted : List Text
  pub note : Text
  pub listed : Bool

-- What is left of the loop once a file was posted: with an error it ends.
abbrev posted_as : Text → Option Text → Uploaded → Uploaded
posted_as name (some err) rest = record {
  posted = name ∷ [];
  note = name ++ (codes ": " ++ err);
  listed = false;
}
posted_as name none rest = record rest { posted = name ∷ rest.posted }

-- `fault` is what else keeps the server from writing a file, or its answer from coming back, if
-- anything does; what it leaves in the directory is not told, as the loop ends there.
module _ (fault : Text → Option Text) where
  -- The server's answer to a file of this name: the error, or none for a file that it has written.
  unfoldable pub post : List Text → Text → Option Text
  post dir name = if contains dir name then some (name ++ codes " is already there") else fault name

  -- `upload`, of the names of the files.
  unfoldable pub upload : List Text → List Text → Uploaded
  unfolding upload_name post
  upload dir [] = record { posted = []; note = []; listed = true }
  upload dir (file ∷ files) =
      let name = upload_name file in
      let rest = upload (name ∷ dir) files in posted_as name (post dir name) rest

  -- None of the names is in the directory, none stands twice, and nothing else keeps one from being
  -- written.
  pub Taken : List Text → List Text → Type 0
  Taken dir [] = Unit
  Taken dir (name ∷ names) =
      (contains dir name ≡ false) × (fault name ≡ none) × Taken (name ∷ dir) names

  abbrev pub stored : List Text → List Text → List Text
  stored dir [] = dir
  stored dir (name ∷ names) = stored (name ∷ dir) names

  -- Why a file is not written.
  abbrev pub Refused : List Text → Text → Text → Type 0
  Refused dir name err =
      ((contains dir name ≡ true) × (err ≡ name ++ codes " is already there"))
      ⊎ ((contains dir name ≡ false) × (fault name ≡ some err))

  -- The first file that is not written, and what came before it and after.
  pub record Stops (dir files : List Text) (u : Uploaded) : Type 0 where
    pub taken : List Text
    pub file : Text
    pub rest : List Text
    pub err : Text
    pub cut : files ≡ taken ++ file ∷ rest
    pub before : Taken dir (map upload_name taken)
    pub refused_for : Refused (stored dir (map upload_name taken)) (upload_name file) err
    pub result : u ≡ record {
      posted = map upload_name taken ++ upload_name file ∷ [];
      note = upload_name file ++ (codes ": " ++ err);
      listed = false;
    }

  abbrev pub Whole : List Text → List Text → Uploaded → Type 0
  Whole dir files u =
      Taken dir (map upload_name files)
      × (u ≡ record { posted = map upload_name files; note = []; listed = true })

  post-there :
      (dir : List Text) (name : Text)
      → contains dir name ≡ true
      → post dir name ≡ some (name ++ codes " is already there")
  unfolding post
  post-there dir name there = rw there refl

  post-new :
      (dir : List Text) (name : Text) → contains dir name ≡ false → post dir name ≡ fault name
  unfolding post
  post-new dir name new = rw new refl

  Stops-here :
      (dir : List Text) (file : Text) (files : List Text) (err : Text)
      → post dir (upload_name file) ≡ some err
      → Refused dir (upload_name file) err
      → Stops dir (file ∷ files) (upload dir (file ∷ files))
  unfolding upload Taken
  Stops-here dir file files err answer why = record {
    taken = [];
    file = file;
    rest = files;
    err = err;
    cut = refl;
    before = tt;
    refused_for = why;
    result =
        ap
          (λ (o : Option Text).
            posted_as (upload_name file) o (upload (upload_name file ∷ dir) files))
          answer;
  }

  upload-cons :
      (dir : List Text) (file : Text) (files : List Text)
      → contains dir (upload_name file) ≡ false
      → fault (upload_name file) ≡ none
      → Whole (upload_name file ∷ dir) files (upload (upload_name file ∷ dir) files)
        ⊎ Stops (upload_name file ∷ dir) files (upload (upload_name file ∷ dir) files)
      → Whole dir (file ∷ files) (upload dir (file ∷ files))
        ⊎ Stops dir (file ∷ files) (upload dir (file ∷ files))
  unfolding upload post Taken
  upload-cons dir file files new fine (inl (taken, is)) = inl (
    (new, fine, taken),
    ap₂ (posted_as (upload_name file)) (post-new dir (upload_name file) new ∙ fine) is,
  )
  upload-cons dir file files new fine (inr s) = inr (record {
    taken = file ∷ s.taken;
    file = s.file;
    rest = s.rest;
    err = s.err;
    cut = ap (λ (fs : List Text). file ∷ fs) s.cut;
    before = (new, fine, s.before);
    refused_for = s.refused_for;
    result =
        ap₂ (posted_as (upload_name file)) (post-new dir (upload_name file) new ∙ fine) s.result;
  })

  -- Either every name is new and every file is written: then all are posted, in their order, and the
  -- list is read again. Or there is a first file that is not written, since its name is in the
  -- directory by then or for a fault: then it and those before it are posted, those after it are
  -- not, the note has the name it was posted under with the error, and the list is not read again.
  pub upload_lem :
      (dir files : List Text)
      → Whole dir files (upload dir files) ⊎ Stops dir files (upload dir files)
  unfolding upload Taken
  upload_lem dir [] = inl (tt, refl)
  upload_lem dir (file ∷ files) =
      let name = upload_name file in
      elim (Bool-cases (contains dir name)) [
        | inl there ↦ inr (
            Stops-here dir file files (name ++ codes " is already there")
              (post-there dir name there) (inl (there, refl)))
        | inr new ↦ elim (Option-cases (fault name)) [
          | inl fine ↦ upload-cons dir file files new fine (upload_lem (name ∷ dir) files)
          | inr (err, fails) ↦
              inr (Stops-here dir file files err (post-new dir name new ∙ fails) (inr (new, fails)))
        ]
      ]
