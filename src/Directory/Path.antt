-- ===== src/Directory/Path.antt =====
-- directory.c: the parts of a path. A path is the list of its characters up to the null byte.
use group.Base.{ℕ, zero, suc, Option, none, some, List, [], ◌∷◌, ◌==◌, if◌then◌else◌}

abbrev pub slash : ℕ
slash = b'/'

-- What `get_next_part` returns: 0, -1, or 1 with the part and the rest of the path.
pub data NextPart : Type 0 where
  end : NextPart
  too_long : NextPart
  got : List ℕ → List ℕ → NextPart

unfoldable pub skip_slashes : List ℕ → List ℕ
skip_slashes [] = []
skip_slashes (c ∷ src) = if c == slash then skip_slashes src else c ∷ src

unfoldable pub put_char : ℕ → NextPart → NextPart
put_char c (got part src) = got (c ∷ part) src
put_char c end = end
put_char c too_long = too_long

-- The copy loop; `room` is `part + NAME_MAX - dst`.
unfoldable pub copy_part : ℕ → List ℕ → NextPart
copy_part room [] = got [] []
copy_part zero (c ∷ src) = if c == slash then got [] (c ∷ src) else too_long
copy_part (suc room) (c ∷ src) =
    let rest = copy_part room src in if c == slash then got [] (c ∷ src) else put_char c rest

-- Behind the slashes.
unfoldable pub start_part : List ℕ → NextPart
start_part [] = end
start_part (c ∷ rest) = copy_part 14 (c ∷ rest)

unfoldable pub get_next_part : List ℕ → NextPart
get_next_part src = start_part (skip_slashes src)

-- A round of `get_last_part`; `again` is the next one.
unfoldable pub last_part :
    List ℕ → (List ℕ → List ℕ → Option (Option (List ℕ))) → NextPart → Option (Option (List ℕ))
last_part part again end = some (some part)
last_part part again too_long = some none
last_part part again (got next src) = again next src

-- The part that is left in the buffer, or `none` for `false`.
unfoldable pub get_last_part : ℕ → List ℕ → List ℕ → Option (Option (List ℕ))
get_last_part zero part src = none
get_last_part (suc fuel) part src = last_part part (get_last_part fuel) (get_next_part src)
