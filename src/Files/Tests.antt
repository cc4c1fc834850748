-- ===== src/Files/Tests.antt =====
-- Paths and copies, and instances of the theorems.
use willy.Prelude.{
  ◌≡◌, refl, some, List, [], ◌∷◌, All, Text, codes, text_eq, to_decimal, split, join, ok, err,
  Error,
}
use willy.Files.{container_path, segments_of, check_segments, under_root}
use willy.Files.Confined.{IsName, container_path-IsName}
use willy.Files.Copies.{
  suggest_copy_name, first_copy, last_index, IsProposed, suggest_copy_name-terminates, dir_of,
}

inside : container_path (codes "/a//./b") ≡ ok (codes "/mnt/a/b")
unfolding container_path segments_of check_segments split text_eq join
inside = refl

escapes : container_path (codes "a/../../etc") ≡ err Error.file_error
unfolding container_path segments_of check_segments split text_eq join
escapes = refl

container_path-IsName_example :
    (names : List Text) × All IsName names × (codes "/mnt/a/b" ≡ under_root names)
container_path-IsName_example = container_path-IsName (codes "/a//./b") (codes "/mnt/a/b") inside

abbrev names_taken : List Text
names_taken = codes "t.txt" ∷ codes "t (2).txt" ∷ []

third : suggest_copy_name (codes "t.txt") names_taken ≡ some (codes "t (3).txt")
unfolding suggest_copy_name first_copy last_index text_eq to_decimal
third = refl

suggest_copy_name-terminates_example :
    (t : Text) × (suggest_copy_name (codes "t.txt") names_taken ≡ some t)
    × IsProposed (codes "t.txt") names_taken t
suggest_copy_name-terminates_example = suggest_copy_name-terminates (codes "t.txt") names_taken

parent : dir_of (codes "/a/b") ≡ codes "/a"
unfolding dir_of last_index text_eq
parent = refl
