-- ===== src/Proxy/Body/Stream.antt =====
-- What a client receives of a body that comes in chunks.
use proxy.Common.{
  ◌+◌, ◌≤◌, ◌<◌, ◌≡◌, refl, sym, ap, ◌∙◌, Bool, true, false, Option, none, some, List, [], ◌∷◌,
  ◌++◌, append_assoc, append-nil, length, length-append, ltb, arith,
}
use proxy.Common.Text.{Str}
use proxy.Ir.{BodyRewrite}
use proxy.Proxy.Body.{
  max_body_rewrite_bytes, saturating_add, response_body_filter, rewritten, finish,
}

abbrev pub bytes_of : Option Str → Str
bytes_of none = []
bytes_of (some s) = s

abbrev pub concat : List Str → Str
concat [] = []
concat (c ∷ cs) = c ++ concat cs

module _ (from_utf8_lossy : Str → Str) (replace : Str → Str → Str → Str) (content_type : Str)
    (brs : List BodyRewrite) where
  abbrev step : Option Str → Bool → Option Str → Option Str × Option Str
  step body last buffer =
      response_body_filter from_utf8_lossy replace content_type brs body last buffer

  -- The bytes that a stream sends on: its chunks, and its last one with the end of the stream.
  pub sent : List Str → Option Str → Option Str → Str
  sent [] last buffer = bytes_of (step last true buffer).0
  sent (c ∷ cs) last buffer =
      bytes_of (step (some c) false buffer).0 ++ sent cs last (step (some c) false buffer).1

  -- Without a buffer the chunks go through.
  sent-none : (cs : List Str) (last : Option Str) → sent cs last none ≡ concat cs ++ bytes_of last
  unfolding sent response_body_filter
  sent-none [] last = refl
  sent-none (c ∷ cs) last =
      ap (λ t. c ++ t) (sent-none cs last) ∙ sym (append_assoc c (concat cs) (bytes_of last))

  -- A chunk that fits is kept, and nothing is sent.
  step-fits :
      (c buffer : Str) (last : Bool)
      → length buffer + length c ≤ max_body_rewrite_bytes
      → step (some c) last (some buffer)
        ≡ finish from_utf8_lossy replace content_type brs last (buffer ++ c)
  unfolding response_body_filter
  step-fits c buffer last h =
      let fits : ltb max_body_rewrite_bytes (saturating_add (length buffer) (length c)) ≡ false =
        ground arith in
      rw fits refl

  step-overflows :
      (c buffer : Str) (last : Bool)
      → max_body_rewrite_bytes < length buffer + length c
      → step (some c) last (some buffer) ≡ (some c, none)
  unfolding response_body_filter
  step-overflows c buffer last h =
      let over : ltb max_body_rewrite_bytes (saturating_add (length buffer) (length c)) ≡ true =
        ground arith in
      rw over refl

  sent-last :
      (last : Option Str) (buffer : Str)
      → length buffer + length (bytes_of last) ≤ max_body_rewrite_bytes
      → sent [] last (some buffer)
        ≡ rewritten from_utf8_lossy replace content_type brs (buffer ++ bytes_of last)
  unfolding sent
  sent-last none buffer h =
      unfold response_body_filter in
      ap (λ t. rewritten from_utf8_lossy replace content_type brs t) (sym (append-nil buffer))
  sent-last (some c) buffer h = ap (λ r. bytes_of r.0) (step-fits c buffer true h)

  sent-fits :
      (cs : List Str) (last : Option Str) (buffer : Str)
      → length buffer + length (concat cs ++ bytes_of last) ≤ max_body_rewrite_bytes
      → sent cs last (some buffer)
        ≡ rewritten from_utf8_lossy replace content_type brs
            (buffer ++ (concat cs ++ bytes_of last))
  unfolding sent
  sent-fits [] last buffer h = sent-last last buffer h
  sent-fits (c ∷ cs) last buffer h =
      let rest = concat cs ++ bytes_of last in
      let whole : (c ++ concat cs) ++ bytes_of last ≡ c ++ rest =
        append_assoc c (concat cs) (bytes_of last) in
      let n : length ((c ++ concat cs) ++ bytes_of last) ≡ length c + length rest =
        ap length whole ∙ length-append c rest in
      let kept = step-fits c buffer false (omega (arith, h, n)) in
      let ih = sent-fits cs last (buffer ++ c) (omega (arith, h, n, length-append buffer c)) in
      ap (λ (r : Option Str × Option Str). bytes_of r.0 ++ sent cs last r.1) kept
      ∙ ih
      ∙ ap (λ t. rewritten from_utf8_lossy replace content_type brs t)
          (append_assoc buffer c rest ∙ ap (λ t. buffer ++ t) (sym whole))

  -- A body of at most ten mebibytes that is buffered is sent as one text, the rewrites applied to
  -- all its chunks together, wherever their boundaries fall.
  pub sent-rewritten :
      (cs : List Str) (last : Option Str)
      → length (concat cs ++ bytes_of last) ≤ max_body_rewrite_bytes
      → sent cs last (some [])
        ≡ rewritten from_utf8_lossy replace content_type brs (concat cs ++ bytes_of last)
  sent-rewritten cs last h = sent-fits cs last [] (omega (arith, h))

  sent-overflows :
      (before : List Str) (c : Str) (after : List Str) (last : Option Str) (buffer : Str)
      → length buffer + length (concat before) ≤ max_body_rewrite_bytes
      → max_body_rewrite_bytes < length buffer + length (concat before) + length c
      → sent (before ++ c ∷ after) last (some buffer) ≡ c ++ (concat after ++ bytes_of last)
  unfolding sent
  sent-overflows [] c after last buffer h k =
      ap (λ (r : Option Str × Option Str). bytes_of r.0 ++ sent after last r.1)
        (step-overflows c buffer false (omega (arith, k)))
      ∙ ap (λ t. c ++ t) (sent-none after last)
  sent-overflows (b ∷ before) c after last buffer h k =
      let n = length-append b (concat before) in
      let m = length-append buffer b in
      ap (λ (r : Option Str × Option Str). bytes_of r.0 ++ sent (before ++ c ∷ after) last r.1)
        (step-fits b buffer false (omega (arith, h, n)))
      ∙ sent-overflows before c after last (buffer ++ b) (omega (arith, h, n, m))
          (omega (arith, k, n, m))

  -- Where a chunk takes a buffered body over ten mebibytes, that chunk and those after it are sent
  -- unchanged, and every chunk before it is lost.
  pub sent_overflow :
      (before : List Str) (c : Str) (after : List Str) (last : Option Str)
      → length (concat before) ≤ max_body_rewrite_bytes
      → max_body_rewrite_bytes < length (concat before) + length c
      → sent (before ++ c ∷ after) last (some []) ≡ c ++ (concat after ++ bytes_of last)
  sent_overflow before c after last h k =
      sent-overflows before c after last [] (omega (arith, h)) (omega (arith, k))
