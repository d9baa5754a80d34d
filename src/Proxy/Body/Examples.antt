-- ===== src/Proxy/Body/Examples.antt =====
-- A body in two chunks that split a word, and one that is too long.
use proxy.Common.{
  ℕ, zero, suc, ◌+◌, ◌≤◌, ◌<◌, ◌≡◌, refl, Bool, Option, none, some, List, [], ◌∷◌, ◌++◌, length,
  length-append, arith,
}
use proxy.Common.Text.{Str, codes, str_eq}
use proxy.Ir.{BodyRewrite}
use proxy.Proxy.Body.{max_body_rewrite_bytes, rewritten, rewrite_all}
use proxy.Proxy.Body.Stream.{bytes_of, concat, sent, sent-rewritten, sent_overflow}

abbrev lossy : Str → Str
lossy s = s

-- A replacement of the whole text only.
abbrev replace : Str → Str → Str → Str
replace s find new = proxy.Common.if◌then◌else◌ (str_eq s find) new s

abbrev rewrites : List BodyRewrite
rewrites = record { find = codes "http"; replace = codes "https"; types = [] } ∷ []

sent-rewritten_example :
    sent lossy replace (codes "text/html") rewrites (codes "ht" ∷ []) (some (codes "tp")) (some [])
    ≡ rewritten lossy replace
        (codes "text/html")
        rewrites
        (concat (codes "ht" ∷ []) ++ bytes_of (some (codes "tp")))
sent-rewritten_example =
    sent-rewritten lossy replace (codes "text/html") rewrites (codes "ht" ∷ []) (some (codes "tp"))
      (omega arith)

rewritten_text : rewritten lossy replace (codes "text/html") rewrites (codes "http") ≡ codes "https"
unfolding rewritten rewrite_all str_eq
rewritten_text = refl

zeros : ℕ → Str
zeros zero = []
zeros (suc n) = 0 ∷ zeros n

length-zeros : (n : ℕ) → length (zeros n) ≡ n
unfolding zeros
length-zeros zero = omega arith
length-zeros (suc n) = omega (arith, length-zeros n)

ten_mebibytes : length (concat (zeros max_body_rewrite_bytes ∷ [])) ≡ max_body_rewrite_bytes
ten_mebibytes =
    omega
      (arith, length-append (zeros max_body_rewrite_bytes) [], length-zeros max_body_rewrite_bytes)

sent_overflow_example :
    sent lossy replace
      (codes "text/html")
      rewrites
      (zeros max_body_rewrite_bytes ∷ [] ++ codes "x" ∷ codes "y" ∷ [])
      none
      (some [])
    ≡ codes "x" ++ (concat (codes "y" ∷ []) ++ bytes_of none)
sent_overflow_example =
    sent_overflow lossy replace (codes "text/html") rewrites (zeros max_body_rewrite_bytes ∷ [])
      (codes "x") (codes "y" ∷ []) none (omega (arith, ten_mebibytes))
      (omega (arith, ten_mebibytes))
