-- ===== src/Proxy/Upstream/Paths.antt =====
-- Which URIs the mutations of a request can make.
use mathlib.Core.Path.{subst}
use proxy.Common.{
  ℕ, ◌≡◌, ◌≢◌, refl, sym, ap, ◌∙◌, true, Option, none, some, List, [], ◌∷◌, ◌++◌, All, arith,
}
use proxy.Common.Text.{Str, codes, starts_with, strip_prefix, strip_prefix_iff}
use proxy.Compile.Types.{UpstreamRequestMutation}
use proxy.Compile.Trie.{split_path}
use proxy.Proxy.Path.{normalize_path}
use proxy.Proxy.Path.Normal.{IsName, normalize_path-IsName}
use proxy.Proxy.Upstream.{
  Error, Result, ok, err, ◌>>=◌, ok_or, Http, Request, with_path, with_host, set_headers, set_path,
  strip, strip_raw, insert, insert_all, apply_upstream_request_mutation, apply_mutations, Context,
  upstream_request_filter_inner, bad_request, forwarded_for, upgrades, plan_mutations,
}

-- What `?` goes on with.
ok-bind :
    {A B : Type 0} {b : B} (first : Result A) (next : A → Result B)
    → (first >>= next) ≡ ok b
    → (a : A) × (first ≡ ok a) × (next a ≡ ok b)
ok-bind (err e) next h = absurd (ground (arith, h))
ok-bind (ok a) next h = (a, refl, h)

ok_or-eq-ok : {A : Type 0} (e : Error) (o : Option A) {a : A} → ok_or e o ≡ ok a → o ≡ some a
ok_or-eq-ok e none h = cc
ok_or-eq-ok e (some x) h = cc

ok-injective : {A : Type 0} {a b : A} → ok a ≡ ok b → a ≡ b
ok-injective h = cc

relative : (c : ℕ) (rest : Str) → c ≢ b'/' → normalize_path (c ∷ rest) ≡ none
unfolding normalize_path starts_with strip_prefix
relative c rest ne = ground arith

module _ (http : Http) where
  open http use {Uri}

  -- How a URI comes from another: by paths that are absolute and whose segments are names, put in
  -- its place with the query kept, and by host names.
  pub data Rewritten (u : Uri) : Uri → Type 0 where
    same : Rewritten u u
    by_path :
        {v w : Uri} (q : Str)
        → Rewritten u v
        → starts_with q (codes "/") ≡ true
        → All IsName (split_path q)
        → with_path http v q ≡ some w
        → Rewritten u w
    by_host :
        {v w : Uri} (hostname : Str)
        → Rewritten u v
        → with_host http v hostname ≡ some w
        → Rewritten u w

  insert-uri :
      (name value : Str) (r : Request http) {t : Request http}
      → insert http name value r ≡ ok t
      → t.uri ≡ r.uri
  insert-uri name value r h =
      let (hs, e, k) =
        ok-bind (ok_or _ (http.insert_header name value r.headers)) (λ x. ok (set_headers http r x))
          h in
      ap (λ (x : Request http). x.uri) (sym (ok-injective k))

  insert_all-uri :
      (headers : List (Str × Str)) (r : Request http) {t : Request http}
      → insert_all http headers r ≡ ok t
      → t.uri ≡ r.uri
  unfolding insert_all
  insert_all-uri [] r h = ap (λ (x : Request http). x.uri) (sym (ok-injective h))
  insert_all-uri ((name, value) ∷ rest) r h =
      let (s, e, k) = ok-bind (insert http name value r) (insert_all http rest) h in
      insert_all-uri rest s k ∙ insert-uri name value r e

  set_path-Rewritten :
      (u : Uri) (raw : Str) (r : Request http) {t : Request http}
      → Rewritten u r.uri
      → set_path http r raw ≡ ok t
      → Rewritten u t.uri
  unfolding set_path
  set_path-Rewritten u raw r w h =
      let (q, e, k) = ok-bind (ok_or bad_request (normalize_path raw)) _ h in
      let (v, f, l) = ok-bind (ok_or _ (with_path http r.uri q)) _ k in
      let (absolute, names, _) = normalize_path-IsName raw q (ok_or-eq-ok _ _ e) in
      subst (λ (x : Request http). Rewritten u x.uri) (ok-injective l)
        (by_path q w absolute names (ok_or-eq-ok _ _ f))

  strip-Rewritten :
      (u : Uri) (o : Option Str) (r : Request http) {t : Request http}
      → Rewritten u r.uri
      → strip http r o ≡ ok t
      → Rewritten u t.uri
  strip-Rewritten u none r w h = subst (λ (x : Request http). Rewritten u x.uri) (ok-injective h) w
  strip-Rewritten u (some stripped) r w h = set_path-Rewritten u (strip_raw stripped) r w h

  apply-Rewritten :
      (u : Uri) (m : UpstreamRequestMutation) (r : Request http) {t : Request http}
      → Rewritten u r.uri
      → apply_upstream_request_mutation http m r ≡ ok t
      → Rewritten u t.uri
  unfolding apply_upstream_request_mutation
  apply-Rewritten u (UpstreamRequestMutation.set_header name value) r w h =
      subst (Rewritten u) (sym (insert-uri name value r h)) w
  apply-Rewritten u (UpstreamRequestMutation.add_header name value) r w h =
      let (hs, e, k) = ok-bind (ok_or _ (http.append_header name value r.headers)) _ h in
      subst (λ (x : Request http). Rewritten u x.uri) (ok-injective k) w
  apply-Rewritten u (UpstreamRequestMutation.remove_header name) r w h =
      subst (λ (x : Request http). Rewritten u x.uri) (ok-injective h) w
  apply-Rewritten u (UpstreamRequestMutation.strip_prefix pre) r w h = strip-Rewritten u _ r w h
  apply-Rewritten u (UpstreamRequestMutation.prepend_path pre) r w h = set_path-Rewritten u _ r w h
  apply-Rewritten u (UpstreamRequestMutation.rewrite_path rewrite) r w h =
      set_path-Rewritten u _ r w h
  apply-Rewritten u (UpstreamRequestMutation.rewrite_hostname hostname) r w h =
      let (s, e, k) = ok-bind (insert http (codes "host") hostname r) _ h in
      let (v, f, l) = ok-bind (ok_or _ (with_host http s.uri hostname)) _ k in
      let ws = subst (Rewritten u) (sym (insert-uri (codes "host") hostname r e)) w in
      subst (λ (x : Request http). Rewritten u x.uri) (ok-injective l)
        (by_host hostname ws (ok_or-eq-ok _ _ f))

  mutations-Rewritten :
      (u : Uri) (ms : List UpstreamRequestMutation) (r : Request http) {t : Request http}
      → Rewritten u r.uri
      → apply_mutations http ms r ≡ ok t
      → Rewritten u t.uri
  unfolding apply_mutations
  mutations-Rewritten u [] r w h =
      subst (λ (x : Request http). Rewritten u x.uri) (ok-injective h) w
  mutations-Rewritten u (m ∷ ms) r w h =
      let (s, e, k) =
        ok-bind (apply_upstream_request_mutation http m r) (apply_mutations http ms) h in
      mutations-Rewritten u ms s (apply-Rewritten u m r w e) k

  set_path-relative :
      (c : ℕ) (rest : Str) (r : Request http)
      → c ≢ b'/'
      → set_path http r (c ∷ rest) ≡ err bad_request
  unfolding set_path
  set_path-relative c rest r ne = rw (relative c rest ne) refl

  -- Where the filter succeeds, the URI that goes to the backend is that of the request, up to host
  -- names and paths that are put in their place, and each such path is absolute, and its segments
  -- are names: not empty, not `.` and not `..`.
  pub upstream_request_filter-Rewritten :
      (ctx : Context http) (r t : Request http)
      → upstream_request_filter_inner http ctx r ≡ ok t
      → Rewritten r.uri t.uri
  unfolding upstream_request_filter_inner
  upstream_request_filter-Rewritten ctx r t h =
      let (r1, e1, h1) =
        ok-bind (insert http (codes "x-forwarded-proto") ctx.downstream_scheme r) _ h in
      let (r2, e2, h2) = ok-bind (insert_all http (forwarded_for http ctx.client_ip) r1) _ h1 in
      let (r3, e3, h3) = ok-bind (insert http (codes "x-request-id") ctx.request_id r2) _ h2 in
      let (r4, e4, h4) =
        ok-bind (insert_all http (upgrades http ctx.plan ctx.upgrade_headers) r3) _ h3 in
      let (r5, e5, h5) = ok-bind (insert_all http ctx.auth_headers r4) _ h4 in
      let (r6, e6, h6) =
        ok-bind (apply_mutations http (plan_mutations http ctx.plan ctx.backend_index) r5) _ h5 in
      let kept : r5.uri ≡ r.uri =
        insert_all-uri ctx.auth_headers r4 e5
        ∙ insert_all-uri (upgrades http ctx.plan ctx.upgrade_headers) r3 e4
        ∙ insert-uri (codes "x-request-id") ctx.request_id r2 e3
        ∙ insert_all-uri (forwarded_for http ctx.client_ip) r1 e2
        ∙ insert-uri (codes "x-forwarded-proto") ctx.downstream_scheme r e1 in
      let changed =
        mutations-Rewritten r.uri (plan_mutations http ctx.plan ctx.backend_index) r5
          (subst (Rewritten r.uri) (sym kept) same) e6 in
      subst (λ (x : Request http). Rewritten r.uri x.uri) (ok-injective h6) changed

  -- A prefix that ends with a slash is stripped from no path that goes on below it: where another
  -- character than a slash follows, the request is refused with 400.
  pub strip_prefix_slash :
      (pre : Str) (c : ℕ) (rest : Str) (r : Request http)
      → http.path r.uri ≡ (pre ++ codes "/") ++ c ∷ rest
      → c ≢ b'/'
      → apply_upstream_request_mutation http
          (UpstreamRequestMutation.strip_prefix (pre ++ codes "/"))
          r
        ≡ err bad_request
  unfolding apply_upstream_request_mutation
  strip_prefix_slash pre c rest r e ne =
      let found = (strip_prefix_iff (http.path r.uri) (pre ++ codes "/") (c ∷ rest)).1 e in
      rw found (set_path-relative c rest r ne)
