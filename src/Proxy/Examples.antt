-- ===== src/Proxy/Examples.antt =====
-- Paths with segments to resolve.
use proxy.Common.{◌≡◌, refl, true, ◌&&◌, none, some, All, map, is_some}
use proxy.Common.Text.{codes, split, str_eq, starts_with, strip_prefix}
use proxy.Proxy.Path.{normalize_path, walk_segments, kind_of, join}
use proxy.Compile.Trie.{split_path}
use proxy.Proxy.Path.Normal.{IsName, stays_inside, normalize_path-IsName, normalize_path_accepts}

resolved : normalize_path (codes "/a/./b//../c/") ≡ some (codes "/a/c")
unfolding normalize_path walk_segments kind_of join str_eq split starts_with strip_prefix
resolved = refl

escapes : normalize_path (codes "/a/../../b") ≡ none
unfolding normalize_path walk_segments kind_of join str_eq split starts_with strip_prefix
escapes = refl

normalize_path-IsName_example :
    (starts_with (codes "/a/c") (codes "/") ≡ true)
    × All IsName (split_path (codes "/a/c"))
    × (normalize_path (codes "/a/c") ≡ some (codes "/a/c"))
normalize_path-IsName_example =
    normalize_path-IsName (codes "/a/./b//../c/") (codes "/a/c") resolved

normalize_path_accepts_example : is_some (normalize_path (codes "/a/../../b")) ≡ (
    starts_with (codes "/a/../../b") (codes "/")
    && stays_inside 0 (map kind_of (split b'/' (codes "/a/../../b"))))
normalize_path_accepts_example = normalize_path_accepts (codes "/a/../../b")
