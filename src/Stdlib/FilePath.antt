-- ===== src/Stdlib/FilePath.antt =====
-- filepath.Join of the Go library on Unix: the elements that are not empty, joined by slashes, and the
-- result made shortest by the rules of filepath.Clean.
use brewery_bitcoin.Prelude.{
  Bool, false, ◌||◌, not, List, [], ◌∷◌, ◌++◌, ◌==◌, if◌then◌else◌, Bytes, codes, same,
}

-- the parts between slashes
abbrev pub split_slash : Bytes → List Bytes
split_slash [] = [] ∷ []
split_slash (c ∷ cs) =
    if c == b'/'
    then [] ∷ split_slash cs
    else elim (split_slash cs) [ [] ↦ (c ∷ []) ∷ [] | part ∷ parts ↦ (c ∷ part) ∷ parts ]

abbrev pub dot : Bytes
dot = codes "."

abbrev pub dot_dot : Bytes
dot_dot = codes ".."

-- The parts that are kept, the last one first: empty parts and "." go, ".." takes the part before it
-- away, and at the root it goes.
unfoldable pub clean_parts : Bool → List Bytes → List Bytes → List Bytes
clean_parts rooted kept [] = kept
clean_parts rooted kept (part ∷ parts) =
    clean_parts rooted
      (if same part [] || same part dot
        then kept
        else if not (same part dot_dot)
        then part ∷ kept
        else elim kept [
          | [] ↦ if rooted then [] else dot_dot ∷ []
          | before ∷ rest ↦ if same before dot_dot then part ∷ before ∷ rest else rest
        ])
      parts

-- the parts, last one first, with slashes between them
abbrev pub join_slash : List Bytes → Bytes → Bytes
join_slash [] text = text
join_slash (part ∷ []) text = part ++ text
join_slash (part ∷ before ∷ rest) text = join_slash (before ∷ rest) (b'/' ∷ part ++ text)

abbrev pub is_rooted : Bytes → Bool
is_rooted [] = false
is_rooted (c ∷ cs) = c == b'/'

unfoldable pub clean : Bytes → Bytes
unfolding clean_parts same
clean path =
    let parts = clean_parts (is_rooted path) [] (split_slash path) in
    if is_rooted path
    then b'/' ∷ join_slash parts []
    else elim parts [ [] ↦ dot | part ∷ rest ↦ join_slash (part ∷ rest) [] ]

-- filepath.Join(a, b)
unfoldable pub join : Bytes → Bytes → Bytes
unfolding clean
join [] [] = []
join [] b = clean b
join a [] = clean a
join a b = clean (a ++ b'/' ∷ b)
