-- ===== src/Files.antt =====
-- sysadmin/files/actions.py: the file system that a plan is executed on, and its system calls. A path is
-- the list of its names, the innermost first. What the host decides is a parameter: which system
-- call fails and how, what a torn copy leaves, and which devices differ.
pub mod Entries
pub mod Actions
pub mod Execute
pub mod Safe
pub mod Calls
pub mod Moves
pub mod FreeName
pub mod Fate
pub mod Kept
pub mod Decided
pub mod Duplicates
use sysadmin_assistant.Shared.{
  ◌⊎◌, inl, inr, String, Bool, true, false, ◌&&◌, Option, none, some, List, [], ◌∷◌, if◌then◌else◌,
  str_eq, is_some,
}

abbrev pub FilePath : Type 0
FilePath = List String

unfoldable pub path_eq : FilePath → FilePath → Bool
path_eq [] [] = true
path_eq [] (y ∷ q) = false
path_eq (x ∷ p) [] = false
path_eq (x ∷ p) (y ∷ q) = str_eq x y && path_eq p q

abbrev pub parent : FilePath → FilePath
parent [] = []
parent (name ∷ dir) = dir

-- A link stands with the path that it resolves to.
pub data Entry : Type 0 where
  file : String → Entry
  directory : Entry
  symlink : FilePath → Entry

abbrev pub FileSystem : Type 0
FileSystem = List (FilePath × Entry)

unfoldable pub find : FilePath → FileSystem → Option Entry
find p [] = none
find p ((q, e) ∷ fs) = let rest = find p fs in if path_eq q p then some e else rest

unfoldable pub put : FilePath → Entry → FileSystem → FileSystem
put p e [] = (p, e) ∷ []
put p e ((q, d) ∷ fs) = let rest = put p e fs in if path_eq q p then (q, e) ∷ fs else (q, d) ∷ rest

unfoldable pub remove : FilePath → FileSystem → FileSystem
remove p [] = []
remove p ((q, d) ∷ fs) = let rest = remove p fs in if path_eq q p then fs else (q, d) ∷ rest

-- What an `OSError` of a system call is to the code.
pub data OsError : Type 0 where
  file_exists : OsError
  cross_device : OsError
  os_error : String → OsError

pub data SystemCall : Type 0 where
  mkdir : FilePath → SystemCall
  create : FilePath → SystemCall
  rename : FilePath → FilePath → SystemCall
  copy : FilePath → FilePath → SystemCall
  write : FilePath → SystemCall
  unlink : FilePath → SystemCall

-- What the host answers, beyond what the entries say: the error of a call that fails, what a copy or
-- a write that fails has left behind, and functions of pathlib, of urllib and of the language.
pub record Host : Type 0 where
  pub refuses : SystemCall → Option OsError
  pub torn : SystemCall → Option String
  pub same_device : FilePath → FilePath → Bool
  pub resolve : FilePath → FilePath
  pub describe : OsError → String
  pub stem : String → String
  pub suffix : String → String
  pub quote : FilePath → String
  pub repr : String → String
  pub deleted_at : String

-- The file system after a call, and the exception that it raised or what it returned.
abbrev pub Outcome : Type 0 → Type 0
Outcome A = FileSystem × (OsError ⊎ A)

abbrev pub next : {A B : Type 0} → Outcome A → (FileSystem → A → Outcome B) → Outcome B
next (fs, inl error) k = (fs, inl error)
next (fs, inr a) k = k fs a

abbrev pub followed_entry : FilePath → Option Entry → FilePath
followed_entry p (some (symlink target)) = target
followed_entry p (some (file text)) = p
followed_entry p (some directory) = p
followed_entry p none = p

abbrev pub followed : FileSystem → FilePath → FilePath
followed fs p = followed_entry p (find p fs)

-- `path.exists()`, which follows a link.
unfoldable pub exists : FileSystem → FilePath → Bool
exists fs p = is_some (find (followed fs p) fs)

-- `os.path.lexists`, in which a link counts as it stands.
abbrev pub occupied : FileSystem → FilePath → Bool
occupied fs p = is_some (find p fs)

-- A call that the host may refuse, which then changes nothing.
abbrev asked : {A : Type 0} → Option OsError → FileSystem → Outcome A → Outcome A
asked (some error) fs done = (fs, inl error)
asked none fs done = done

not_a_directory : OsError → OsError
not_a_directory file_exists = os_error "NotADirectoryError"
not_a_directory cross_device = cross_device
not_a_directory (os_error text) = os_error text

-- An ancestor that is no directory is another error than the path itself.
abbrev of_ancestor : Outcome Unit → Outcome Unit
of_ancestor (fs, inl error) = (fs, inl (not_a_directory error))
of_ancestor (fs, inr done) = (fs, inr done)

is_directory : Option Entry → Bool
is_directory none = false
is_directory (some (file text)) = false
is_directory (some directory) = true
is_directory (some (symlink target)) = false

-- `path.mkdir(parents=True, exist_ok=True)`
unfoldable pub make_directory : Host → FileSystem → FilePath → Outcome Unit
unfolding not_a_directory is_directory
make_directory host fs [] = (fs, inr tt)
make_directory host fs (name ∷ dir) =
    let made = of_ancestor (make_directory host fs dir) in
    if is_directory (find (followed fs (name ∷ dir)) fs)
    then (fs, inr tt)
    else if occupied fs (name ∷ dir)
    then asked (host.refuses (mkdir (name ∷ dir))) fs (fs, inl file_exists)
    else next made λ after u.
      asked (host.refuses (mkdir (name ∷ dir))) after (put (name ∷ dir) directory after, inr tt)

-- `os.open` with `O_CREAT | O_EXCL`, and its `close`.
unfoldable pub create_exclusive : Host → FileSystem → FilePath → Outcome Unit
create_exclusive host fs p =
    asked (host.refuses (create p)) fs
      (if occupied fs p then (fs, inl file_exists) else (put p (file "") fs, inr tt))

abbrev pub missing : OsError
missing = os_error "FileNotFoundError"

abbrev renamed : FileSystem → FilePath → FilePath → Option Entry → Outcome Unit
renamed fs source destination none = (fs, inl missing)
renamed fs source destination (some e) = (put destination e (remove source fs), inr tt)

-- `os.rename`
unfoldable pub os_rename : Host → FileSystem → FilePath → FilePath → Outcome Unit
os_rename host fs source destination =
    asked (host.refuses (rename source destination)) fs
      (renamed fs source destination (find source fs))

abbrev left_behind : FileSystem → FilePath → Option String → FileSystem
left_behind fs p none = fs
left_behind fs p (some text) = put p (file text) fs

-- A call that writes a file: refused, it may leave part of it.
abbrev wrote :
    Host → SystemCall → FileSystem → FilePath → Option OsError → Outcome Unit → Outcome Unit
wrote host call fs p (some error) done = (left_behind fs p (host.torn call), inl error)
wrote host call fs p none done = done

abbrev copied : FileSystem → FilePath → Option Entry → Outcome Unit
copied fs destination none = (fs, inl missing)
copied fs destination (some (file text)) = (put destination (file text) fs, inr tt)
copied fs destination (some directory) = (fs, inl (os_error "IsADirectoryError"))
copied fs destination (some (symlink target)) = (fs, inl missing)

-- `shutil.copy2`
unfoldable pub copy2 : Host → FileSystem → FilePath → FilePath → Outcome Unit
copy2 host fs source destination =
    wrote host (copy source destination) fs destination (host.refuses (copy source destination))
      (copied fs destination (find source fs))

-- `path.write_text`
unfoldable pub write_text : Host → FileSystem → FilePath → String → Outcome Unit
write_text host fs p text =
    let target = followed fs p in
    wrote host (write p) fs target (host.refuses (write p)) (put target (file text) fs, inr tt)

-- `os.unlink`
unfoldable pub os_unlink : Host → FileSystem → FilePath → Outcome Unit
os_unlink host fs p =
    asked (host.refuses (unlink p)) fs
      (if occupied fs p then (remove p fs, inr tt) else (fs, inl missing))

-- `path.unlink(missing_ok=True)`
unfoldable pub unlink_missing_ok : Host → FileSystem → FilePath → Outcome Unit
unfolding os_unlink
unlink_missing_ok host fs p = if occupied fs p then os_unlink host fs p else (fs, inr tt)
