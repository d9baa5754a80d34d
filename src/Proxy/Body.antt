-- ===== src/Proxy/Body.antt =====
-- src/proxy/filters.rs: the find and replace in a response's body, chunk by chunk. What
-- `String::from_utf8_lossy` and `str::replace` make of a text are parameters.
pub mod Stream
mod Examples
use proxy.Common.{
  ℕ, ◌+◌, ◌*◌, ◌-◌, ◌^◌, min, Bool, true, false, ◌||◌, Option, none, some, List, [], ◌∷◌, ◌++◌, any,
  length, ltb, if◌then◌else◌, is_some,
}
use proxy.Common.Text.{Str, codes, starts_with, is_empty}
use proxy.Ir.{BodyRewrite}

abbrev pub max_body_rewrite_bytes : ℕ
max_body_rewrite_bytes = 10 * 1024 * 1024

-- `usize::saturating_add`.
abbrev pub saturating_add : ℕ → ℕ → ℕ
saturating_add a b = min (a + b) (2 ^ 64 - 1)

-- The end of `upstream_response_filter_inner`: the buffer that a response gets, by its content type.
unfoldable pub body_buffer_for : List BodyRewrite → Str → Option Str
body_buffer_for rewrites content_type =
    if is_empty rewrites
    then none
    else (if starts_with content_type (codes "text/html")
          || starts_with content_type (codes "application/javascript")
          || starts_with content_type (codes "text/javascript")
        then some []
        else none)

module _ (from_utf8_lossy : Str → Str) (replace : Str → Str → Str → Str) (content_type : Str) where
  -- Whether a rewrite is for the content type.
  abbrev pub applies : BodyRewrite → Bool
  applies br = is_empty br.types || any (λ t. starts_with content_type t) br.types

  -- The loop over the rewrites of the plan.
  unfoldable pub rewrite_all : List BodyRewrite → Str → Str
  rewrite_all [] result = result
  rewrite_all (br ∷ brs) result =
      rewrite_all brs (if applies br then replace result br.find br.replace else result)

  unfoldable pub rewritten : List BodyRewrite → Str → Str
  unfolding rewrite_all
  rewritten brs buffer = rewrite_all brs (from_utf8_lossy buffer)

  -- The `if end_of_stream` on a buffer: the body that goes on, and the buffer that is kept.
  abbrev pub finish : List BodyRewrite → Bool → Str → Option Str × Option Str
  finish brs true buffer = (some (rewritten brs buffer), none)
  finish brs false buffer = (none, some buffer)

  -- `response_body_filter_inner`: a chunk, whether the stream ends, and the buffer.
  unfoldable pub response_body_filter :
      List BodyRewrite → Option Str → Bool → Option Str → Option Str × Option Str
  unfolding rewritten
  response_body_filter brs body end_of_stream none = (body, none)
  response_body_filter brs none end_of_stream (some buffer) = finish brs end_of_stream buffer
  response_body_filter brs (some chunk) end_of_stream (some buffer) =
      if ltb max_body_rewrite_bytes (saturating_add (length buffer) (length chunk))
      then (some chunk, none)
      else finish brs end_of_stream (buffer ++ chunk)
