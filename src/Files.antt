-- ===== src/Files.antt =====
-- backend/src/files/file-path.ts and file-stat.ts: the paths of the file manager, which are confined to the
-- volume's root, and the modes of its entries. A path is given as a string.
pub mod Confined
pub mod Copies
mod Tests
use willy.Prelude.{
  ℕ, suc, ◌+◌, ◌*◌, ◌/◌, ◌%◌, ◌≡◌, Bool, true, false, not, ◌&&◌, ◌||◌, Option, none, some, List, [],
  ◌∷◌, ◌++◌, ◌==◌, ltb, leb, if◌then◌else◌, filter, contains, length, Text, codes, text_eq, split,
  join, Result, ok, err, Error,
}

abbrev pub volume_root : Text
volume_root = codes "/mnt"

abbrev pub max_path_length : ℕ
max_path_length = 4096

abbrev pub max_name_length : ℕ
max_name_length = 255

abbrev pub is_segment : Text → Bool
is_segment segment = ltb 0 (length segment) && not (text_eq segment (codes "."))

unfoldable pub segments_of : Text → List Text
segments_of user_path = filter is_segment (split 47 user_path)

-- The loop over the segments: whether it passes.
unfoldable pub check_segments : List Text → Bool
check_segments [] = true
check_segments (segment ∷ rest) =
    let later = check_segments rest in
    if text_eq segment (codes "..")
    then false
    else if ltb max_name_length (length segment)
    then false
    else later

abbrev pub under_root : List Text → Text
under_root [] = volume_root
under_root (s ∷ ss) = volume_root ++ 47 ∷ join (codes "/") (s ∷ ss)

unfoldable pub container_path : Text → Result Text
unfolding segments_of check_segments
container_path user_path =
    if contains 0 user_path
    then err Error.file_error
    else if ltb max_path_length (length user_path)
    then err Error.file_error
    else if not (check_segments (segments_of user_path))
    then err Error.file_error
    else ok (under_root (segments_of user_path))

unfoldable pub assert_basename : Text → Result Text
assert_basename name =
    if leb (length name) 0
      || contains 47 name
      || contains 0 name
      || text_eq name (codes ".")
      || text_eq name (codes "..")
      || ltb max_name_length (length name)
    then err Error.file_error
    else ok name

pub data FileEntryType : Type 0 where
  dir file symlink other : FileEntryType

-- `rawMode & 0o170000`, in units of 0o10000.
abbrev pub format_of : ℕ → ℕ
format_of raw_mode = (raw_mode / 4096) % 16

abbrev pub file_type : ℕ → FileEntryType
file_type raw_mode =
    if format_of raw_mode == 4
    then FileEntryType.dir
    else if format_of raw_mode == 8
    then FileEntryType.file
    else if format_of raw_mode == 10
    then FileEntryType.symlink
    else FileEntryType.other
