-- ===== src/Compile/Plan/Precedence.antt =====
-- The precedence of a rule, a packed u64, orders rules as its four parts do.
use proxy.Common.{
  ℕ, ◌+◌, ◌*◌, ◌^◌, ◌≤◌, ◌<◌, ◌≡◌, ◌↔◌, ◌⊎◌, inl, inr, List, [], ◌∷◌, length, filter_map, max_of,
  arith,
}
use proxy.Common.Bits.{bit_or_disjoint}
use proxy.Ir.{RequestMatch, Rule}
use proxy.Compile.Plan.{path_len, method_specificity, shl64, pack, compute_precedence}

-- The four parts of a rule's precedence: the length of its longest path, whether a match names a
-- method, and the greatest numbers of header and query matches.
abbrev pub longest_path : Rule → ℕ
longest_path rule = max_of path_len (filter_map (λ (m : RequestMatch). m.path) rule.matches)

abbrev pub names_method : Rule → ℕ
names_method rule = max_of method_specificity rule.matches

abbrev pub most_headers : Rule → ℕ
most_headers rule = max_of (λ (m : RequestMatch). length m.headers) rule.matches

abbrev pub most_queries : Rule → ℕ
most_queries rule = max_of (λ (m : RequestMatch). length m.query_params) rule.matches

-- Each part fits its sixteen bits.
pub record IsPackable (rule : Rule) : Type 0 where
  pub path_fits : longest_path rule < 2 ^ 16
  pub headers_fit : most_headers rule < 2 ^ 16
  pub queries_fit : most_queries rule < 2 ^ 16

names_method_le : (ms : List RequestMatch) → max_of method_specificity ms ≤ 1
names_method_le [] = omega arith
names_method_le (m ∷ ms) = ground (arith, names_method_le ms)

pack_sum :
    (p m h q : ℕ)
    → p < 65536
    → m < 65536
    → h < 65536
    → q < 65536
    → pack p m h q ≡ ((p * 65536 + m) * 65536 + h) * 65536 + q
unfolding pack
pack_sum p m h q bp bm bh bq =
    let ep : shl64 p 48 ≡ p * 2 ^ 48 = omega (arith, bp) in
    let em : shl64 m 32 ≡ m * 2 ^ 32 = omega (arith, bm) in
    let eh : shl64 h 16 ≡ h * 2 ^ 16 = omega (arith, bh) in
    let one = bit_or_disjoint 48 p (m * 2 ^ 32) (omega (arith, bm)) in
    let sum1 : p * 2 ^ 48 + m * 2 ^ 32 ≡ (p * 65536 + m) * 2 ^ 32 = omega arith in
    let two = bit_or_disjoint 32 (p * 65536 + m) (h * 2 ^ 16) (omega (arith, bh)) in
    let sum2 : (p * 65536 + m) * 2 ^ 32 + h * 2 ^ 16 ≡ ((p * 65536 + m) * 65536 + h) * 2 ^ 16 =
      omega arith in
    let three = bit_or_disjoint 16 ((p * 65536 + m) * 65536 + h) q (omega (arith, bq)) in
    rw (ep, em, eh, one, sum1, two, sum2, three) (omega arith)

lt_or_eq :
    (a b x y : ℕ)
    → x < 65536
    → y < 65536
    → a * 65536 + x < b * 65536 + y
    → (a < b) ⊎ ((a ≡ b) × (x < y))
lt_or_eq a b x y bx by h = ground arith

-- Fields of sixteen bits below a first one, compared in turn.
abbrev pub LexLess : ℕ → ℕ → Type 0 → Type 0
LexLess a b Rest = (a < b) ⊎ ((a ≡ b) × Rest)

lex : (a b x y : ℕ) → x < 65536 → y < 65536 → (a * 65536 + x < b * 65536 + y) ↔ LexLess a b (x < y)
lex a b x y bx by = (λ h. lt_or_eq a b x y bx by h, λ h. ground (arith, h))

lex_assoc :
    (a b x y : ℕ) {R : Type 0}
    → x < 65536
    → y < 65536
    → LexLess (a * 65536 + x) (b * 65536 + y) R ↔ LexLess a b (LexLess x y R)
lex_assoc a b x y {R} bx by = (
  λ h. elim h [
    | inl l ↦ elim (lt_or_eq a b x y bx by l) [ inl k ↦ inl k | inr (e, k) ↦ inr (e, inl k) ]
    | inr (e, r) ↦ inr (omega (arith, e, bx, by), inr (omega (arith, e, bx, by), r))
  ],
  λ h. elim h [
    | inl l ↦ inl (omega (arith, l, bx, by))
    | inr (e, inl l) ↦ inl (omega (arith, e, l))
    | inr (e, inr (k, r)) ↦ inr (omega (arith, e, k), r)
  ],
)

-- Where the longest path, the most headers and the most query parameters of each of two rules are
-- below 65536, the packed precedence of one is below the other's exactly when, compared in turn, its
-- longest path, whether it names a method, its most headers and its most query parameters are.
pub compute_precedence_lexicographic :
    (a b : Rule)
    → IsPackable a
    → IsPackable b
    → (compute_precedence a < compute_precedence b)
      ↔ LexLess (longest_path a) (longest_path b) (
          LexLess
            (names_method a)
            (names_method b)
            (LexLess (most_headers a) (most_headers b) (most_queries a < most_queries b)))
unfolding compute_precedence
compute_precedence_lexicographic a b ka kb =
    let ma = names_method_le a.matches in
    let mb = names_method_le b.matches in
    let sa =
      pack_sum (longest_path a) (names_method a) (most_headers a) (most_queries a) ka.path_fits
        (omega (arith, ma)) ka.headers_fit ka.queries_fit in
    let sb =
      pack_sum (longest_path b) (names_method b) (most_headers b) (most_queries b) kb.path_fits
        (omega (arith, mb)) kb.headers_fit kb.queries_fit in
    let one =
      lex_assoc (longest_path a) (longest_path b) (names_method a) (names_method b)
        (omega (arith, ma)) (omega (arith, mb)) in
    let two =
      lex_assoc (longest_path a * 65536 + names_method a) (longest_path b * 65536 + names_method b)
        (most_headers a) (most_headers b) ka.headers_fit kb.headers_fit in
    let three =
      lex ((longest_path a * 65536 + names_method a) * 65536 + most_headers a)
        ((longest_path b * 65536 + names_method b) * 65536 + most_headers b) (most_queries a)
        (most_queries b) ka.queries_fit kb.queries_fit in
    rw (sa, sb) (λ h. one.0 (two.0 (three.0 h)), λ h. three.1 (two.1 (one.1 h)))
