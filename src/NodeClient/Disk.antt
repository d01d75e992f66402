-- ===== src/NodeClient/Disk.antt =====
-- `std::fs` and `std::path` as node-client/src/wallet.rs uses them. A path is its text. A call of the
-- file system may fail; the failures that are to come are a list in the state, one entry for each
-- call, and calls past its end succeed. The files are those with texts in them, in the order in which
-- `read_dir` lists them; a directory is one that has been created, or one above a file or above such
-- a directory. Paths are compared as they are written: a part `.` or `..` is not resolved and a link is
-- not followed.
use decentralized_hive_mind.Prelude.{
  ℕ, zero, suc, Bool, false, Option, none, some, List, [], ◌∷◌, ◌++◌, take, Text, text, true,
  text_eq, is_some, any, not, starts_with, ◌&&◌, ◌||◌, ◌==◌, if◌then◌else◌,
}
use decentralized_hive_mind.NodeClient.Effect.{Outcome, ok, fail, Effect}

pub record File : Type 0 where
  pub path : Text
  pub content : Text
  pub mode : ℕ

-- What becomes of a call: it succeeds, or it fails. A write that fails has left a prefix.
pub data Fate : Type 0 where
  success : Fate
  failure : ℕ → Fate

pub record Disk : Type 0 where
  pub files : List File
  pub dirs : List Text
  pub fates : List Fate

abbrev pub Io : Type 0 → Type 0
Io A = Effect Disk A

abbrev pub fate_at : List Fate → Disk → Fate × Disk
fate_at [] d = (success, d)
fate_at (f ∷ rest) d = (f, record d { fates = rest })

abbrev pub next_fate : Disk → Fate × Disk
next_fate d = fate_at d.fates d

abbrev pub find_file : Text → List File → Option File
find_file p [] = none
find_file p (f ∷ fs) = let rest = find_file p fs in if text_eq f.path p then some f else rest

-- A new file has the mode 0644, that of the usual mask.
abbrev pub put_file : Text → Text → List File → List File
put_file p content [] = record { path = p; content = content; mode = 0o644 } ∷ []
put_file p content (f ∷ fs) =
    let rest = put_file p content fs in
    if text_eq f.path p then record f { content = content } ∷ fs else f ∷ rest

abbrev pub set_mode : Text → ℕ → List File → List File
set_mode p m [] = []
set_mode p m (f ∷ fs) =
    let rest = set_mode p m fs in if text_eq f.path p then record f { mode = m } ∷ fs else f ∷ rest

abbrev content_of : Option File → Text → Outcome Text
content_of none context = fail context
content_of (some f) context = ok (f.content)

abbrev read_at : Text → Text → Fate × Disk → Outcome Text × Disk
read_at p context (success, d) = (content_of (find_file p d.files) context, d)
read_at p context (failure _, d) = (fail context, d)

-- `fs::read_to_string(path).context(context)`
unfoldable pub read_to_string : Text → Text → Io Text
read_to_string p context d = read_at p context (next_fate d)

-- A path is above another.
abbrev is_above : Text → Text → Bool
is_above p q = starts_with (p ++ text "/") q

-- The root and the working directory exist; the empty path is none.
abbrev pub is_dir : Text → Disk → Bool
is_dir p d =
    not (text_eq p [])
    && (text_eq p (text "/")
        || (text_eq p (text ".")
            || (any (λ q. text_eq q p || is_above p q) d.dirs
                || any (λ (f : File). is_above p f.path) d.files)))

-- `Path::parent` of a path that does not end in a slash: the text before the last one.
abbrev pub rsplit_slash : Text → Option Text
rsplit_slash [] = none
rsplit_slash (c ∷ s) = elim (rsplit_slash s) [
  | some dir ↦ some (c ∷ dir)
  | none ↦ if c == b'/' then some [] else none
]

abbrev pub parent : Text → Option Text
parent [] = none
parent (c ∷ s) = elim (rsplit_slash s) [
  | some dir ↦ some (c ∷ dir)
  | none ↦ if c == b'/' then (if text_eq s [] then none else some (b'/' ∷ [])) else some []
]

-- A file can be written if its directory exists.
abbrev pub dir_exists : Option Text → Disk → Bool
dir_exists none d = false
dir_exists (some dir) d = text_eq dir [] || is_dir dir d

abbrev pub is_writable : Text → Disk → Bool
is_writable p d = dir_exists (parent p) d

-- What a write leaves in a directory, and its outcome.
abbrev put_at : Bool → Text → Text → Text → Outcome (Unit {0}) → Disk → Outcome (Unit {0}) × Disk
put_at true p content context o d = (o, record d { files = put_file p content d.files })
put_at false p content context o d = (fail context, d)

abbrev write_at : Text → Text → Text → Fate × Disk → Outcome (Unit {0}) × Disk
write_at p content context (success, d) = put_at (is_writable p d) p content context (ok tt) d
write_at p content context (failure zero, d) = (fail context, d)
write_at p content context (failure (suc k), d) =
    put_at (is_writable p d) p (take k content) context (fail context) d

-- `fs::write(path, content).context(context)`: the file is emptied, and then written. The failure 0
-- comes before that, the failure k + 1 after k characters.
unfoldable pub write : Text → Text → Text → Io (Unit {0})
write p content context d = write_at p content context (next_fate d)

abbrev change_at : (Disk → Disk) → Text → Fate × Disk → Outcome (Unit {0}) × Disk
change_at f context (success, d) = (ok tt, f d)
change_at f context (failure _, d) = (fail context, d)

-- `fs::create_dir_all(path).context(context)`
unfoldable pub create_dir_all : Text → Text → Io (Unit {0})
create_dir_all p context d = change_at (λ d. record d { dirs = p ∷ d.dirs }) context (next_fate d)

-- `fs::set_permissions(path, Permissions::from_mode(m)).context(context)`
unfoldable pub set_permissions : Text → ℕ → Text → Io (Unit {0})
set_permissions p m context d =
    change_at (λ d. record d { files = set_mode p m d.files }) context (next_fate d)

-- `path.exists()`
unfoldable pub exists : Text → Io Bool
exists p d = (ok (is_some (find_file p d.files) || is_dir p d), d)

-- `dir.join(name)` for a path that is not empty and does not end in a slash; an absolute name takes
-- the place of the path.
abbrev pub join_path : Text → Text → Text
join_path dir [] = dir ++ text "/"
join_path dir (c ∷ name) = if c == b'/' then c ∷ name else dir ++ (b'/' ∷ c ∷ name)

abbrev ends_in_slash : Text → Bool
ends_in_slash [] = false
ends_in_slash (c ∷ []) = c == b'/'
ends_in_slash (c ∷ a ∷ s) = ends_in_slash (a ∷ s)

-- `dir.join(name)` for a relative name
abbrev pub join_dir : Text → Text → Text
join_dir [] name = name
join_dir (c ∷ dir) name =
    if ends_in_slash (c ∷ dir) then (c ∷ dir) ++ name else join_path (c ∷ dir) name

abbrev pub plain : Text → Option Text
plain [] = some []
plain (c ∷ s) = if c == b'/' then none else elim (plain s) [ none ↦ none | some t ↦ some (c ∷ t) ]

-- The name of a path in a directory, if it stands there.
abbrev pub name_in : Text → Text → Option Text
name_in [] [] = none
name_in [] (c ∷ p) = if c == b'/' then plain p else none
name_in (a ∷ dir) [] = none
name_in (a ∷ dir) (c ∷ p) = if a == c then name_in dir p else none

-- The text before the last dot, and that after it.
abbrev rsplit_dot : Text → Option (Text × Text)
rsplit_dot [] = none
rsplit_dot (c ∷ s) = elim (rsplit_dot s) [
  | some (stem, ext) ↦ some (c ∷ stem, ext)
  | none ↦ if c == b'.' then some ([], s) else none
]

abbrev extension_of : Option (Text × Text) → Option Text
extension_of none = none
extension_of (some ([], ext)) = none
extension_of (some (c ∷ stem, ext)) = some ext

-- `Path::extension` of a file name: there is none where the only dot comes first.
unfoldable pub extension : Text → Option Text
extension name = extension_of (rsplit_dot name)
