-- ===== src/Certificate/Disk.antt =====
-- Files as src/certificate.cpp uses them: the calls of std::filesystem, std::ifstream and
-- std::ofstream are a parameter. An action is a function that reads and writes files and may throw.
use androidtvremote_native.Common.{ℕ, ◌≡◌, Bool, true, Option, some, List}
use androidtvremote_native.Common.Results.{Error, Result, ok, err}

abbrev pub FilePath : Type 0
FilePath = List ℕ

-- `is_regular_file` and `create_directories` fail with the exception that they throw; `read` is an `ifstream` that is
-- opened and read to its end, `none` where it cannot be opened; `write` is an `ofstream` that is
-- truncated and written, with whether that succeeded.
pub record FileSystem : Type 1 where
  pub Disk : Type 0
  pub is_regular_file : Disk → FilePath → Result Bool
  pub parent_path : FilePath → FilePath
  pub create_directories : Disk → FilePath → Disk × Option Error
  pub read : Disk → FilePath → Option (List ℕ)
  pub write : Disk → FilePath → List ℕ → Disk × Bool

-- What is relied on, for paths at which there is a regular file or nothing yet. `Apart p q` says that
-- the paths do not name the same file, also not through a link. A write that succeeded is read back,
-- no write reaches a file that is apart, and directories that are made leave the files alone.
pub record IsLawful (files : FileSystem) : Type 1 where
  pub Apart : FilePath → FilePath → Type 0
  pub read-write :
      (d : files.Disk) (p : FilePath) (text : List ℕ)
      → (files.write d p text).1 ≡ true
      → files.read (files.write d p text).0 p ≡ some text
  pub regular-write :
      (d : files.Disk) (p : FilePath) (text : List ℕ)
      → (files.write d p text).1 ≡ true
      → files.is_regular_file (files.write d p text).0 p ≡ ok true
  pub read-write_ne :
      (d : files.Disk) (p q : FilePath) (text : List ℕ)
      → Apart q p
      → files.read (files.write d p text).0 q ≡ files.read d q
  pub regular-write_ne :
      (d : files.Disk) (p q : FilePath) (text : List ℕ)
      → Apart q p
      → files.is_regular_file (files.write d p text).0 q ≡ files.is_regular_file d q
  pub read-create_directories :
      (d : files.Disk) (p q : FilePath)
      → files.read (files.create_directories d p).0 q ≡ files.read d q
  pub regular-create_directories :
      (d : files.Disk) (p q : FilePath)
      → files.is_regular_file (files.create_directories d p).0 q ≡ files.is_regular_file d q

module _ (files : FileSystem) where
  open files use {Disk}

  abbrev pub Action : Type 0 → Type 0
  Action A = Disk → Disk × Result A

  abbrev pub pure : {A : Type 0} → A → Action A
  pure a d = (d, ok a)

  abbrev pub throw : {A : Type 0} → Error → Action A
  throw e d = (d, err e)

  abbrev pub lift : {A : Type 0} → Result A → Action A
  lift r d = (d, r)

  abbrev pub continue_with : {A B : Type 0} → (A → Action B) → Disk × Result A → Disk × Result B
  continue_with f (d, ok a) = f a d
  continue_with f (d, err e) = (d, err e)

  abbrev pub bind : {A B : Type 0} → Action A → (A → Action B) → Action B
  bind m f d = continue_with f (m d)
