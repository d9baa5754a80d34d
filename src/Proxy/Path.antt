-- ===== src/Proxy/Path.antt =====
-- src/proxy/filters.rs: `normalize_path`, which resolves the segments `.` and `..` of a path.
pub mod Split
pub mod Normal
use proxy.Common.{
  ℕ, zero, suc, Bool, true, false, not, Option, none, some, List, [], ◌∷◌, ◌++◌, if◌then◌else◌,
  ◌>>=◌,
}
use proxy.Common.Text.{Str, codes, str_eq, split, starts_with, is_empty}

-- `segments.join("/")`.
unfoldable pub join : List Str → Str
join [] = []
join (s ∷ []) = s
join (s ∷ t ∷ ss) = s ++ b'/' ∷ join (t ∷ ss)

-- What the loop does with a segment.
pub data Segment : Type 0 where
  skip : Segment
  up : Segment
  down : Segment

unfoldable pub kind_of : Str → Segment
kind_of s =
    if is_empty s
    then skip
    else (if str_eq s (codes ".") then skip else (if str_eq s (codes "..") then up else down))

-- `stack.pop()?`, on a stack with its top first.
abbrev pub pop : List Str → Option (List Str)
pop [] = none
pop (s ∷ stack) = some stack

abbrev pub visit : Segment → Str → List Str → Option (List Str)
visit skip s stack = some stack
visit up s stack = pop stack
visit down s stack = some (s ∷ stack)

-- The loop over the segments.
unfoldable pub walk_segments : List Str → List Str → Option (List Str)
unfolding kind_of
walk_segments [] stack = some stack
walk_segments (s ∷ segments) stack = visit (kind_of s) s stack >>= walk_segments segments

unfoldable pub rev_onto : List Str → List Str → List Str
rev_onto [] acc = acc
rev_onto (s ∷ ss) acc = rev_onto ss (s ∷ acc)

unfoldable pub render : List Str → Str
unfolding join rev_onto
render stack = b'/' ∷ join (rev_onto stack [])

abbrev pub render_option : Option (List Str) → Option Str
render_option none = none
render_option (some stack) = some (render stack)

unfoldable pub normalize_path : Str → Option Str
unfolding walk_segments render
normalize_path path =
    if starts_with path (codes "/")
    then render_option (walk_segments (split b'/' path) [])
    else none
