-- ===== src/Proxy/Upstream.antt =====
-- src/proxy/filters.rs: what the proxy does to a request before it goes to a backend. The types of
-- the http and pingora crates are a parameter.
pub mod Paths
mod Examples
use proxy.Common.{
  ℕ, Bool, true, false, ◌||◌, Option, none, some, List, [], ◌∷◌, ◌++◌, if◌then◌else◌, unwrap_or,
  get_elem?, or_else,
}
use proxy.Common.Text.{Str, codes, str_eq, strip_prefix, strip_suffix, ends_with, is_empty}
use proxy.Ir.{PathRewrite}
use proxy.Compile.Types.{UpstreamRequestMutation, CompiledPlan, UpstreamAction}
use proxy.Proxy.Path.{normalize_path}

-- `ErrorType::InternalError` and `ErrorType::HTTPStatus(400)`.
pub data Error : Type 0 where
  internal_error : Error
  bad_request : Error

-- `pingora_core::Result`; the operator is `?`.
pub data Result (A : Type 0) : Type 0 where
  err : Error → Result A
  ok : A → Result A

infixl 5 ◌>>=◌
abbrev pub ◌>>=◌ : {A B : Type 0} → Result A → (A → Result B) → Result B
err e >>= next = err e
ok a >>= next = next a

abbrev pub ok_or : {A : Type 0} → Error → Option A → Result A
ok_or e none = err e
ok_or e (some a) = ok a

-- `http::uri::Parts`, by its three parts.
pub record Parts (Authority PathAndQuery : Type 0) : Type 0 where
  pub scheme : Option Str
  pub authority : Option Authority
  pub path_and_query : Option PathAndQuery

-- The crates: URIs and their parts, parsers, and header maps.
pub record Http : Type 1 where
  pub Uri : Type 0
  pub Authority : Type 0
  pub PathAndQuery : Type 0
  pub Headers : Type 0
  pub path : Uri → Str
  pub query : Uri → Option Str
  pub into_parts : Uri → Parts Authority PathAndQuery
  pub from_parts : Parts Authority PathAndQuery → Option Uri
  pub parse_authority : Str → Option Authority
  pub parse_path_and_query : Str → Option PathAndQuery
  pub root_path : PathAndQuery
  pub insert_header : Str → Str → Headers → Option Headers
  pub append_header : Str → Str → Headers → Option Headers
  pub remove_header : Str → Headers → Headers

-- `format!("?{q}")`, or nothing.
abbrev pub query_part : Option Str → Str
query_part none = []
query_part (some q) = b'?' ∷ q

abbrev pub strip_slash : Str → Str
strip_slash s = unwrap_or s (strip_prefix s (codes "/"))

-- The closure that puts a replacement before what follows the prefix.
unfoldable pub replace_prefix : Str → Str → Str
replace_prefix replacement rest =
    if is_empty replacement || str_eq replacement (codes "/")
    then b'/' ∷ strip_slash rest
    else (let stem = unwrap_or replacement (strip_suffix replacement (codes "/")) in
        if is_empty (strip_slash rest) then stem else stem ++ b'/' ∷ strip_slash rest)

abbrev pub replaced : Str → Str → Option Str → Str
replaced old_path replacement none = old_path
replaced old_path replacement (some rest) = replace_prefix replacement rest

-- The `raw_path` of `RewritePath`.
unfoldable pub rewrite_raw : PathRewrite → Str → Str
unfolding replace_prefix
rewrite_raw (PathRewrite.full_replace p) old_path = p
rewrite_raw (PathRewrite.prefix_replace pre replacement) old_path =
    replaced old_path replacement (strip_prefix old_path pre)

-- The `raw_path` of `PrependPath`.
unfoldable pub prepend_raw : Str → Str → Str
prepend_raw pre old_path =
    if ends_with pre (codes "/")
    then pre ++ strip_slash old_path
    else pre ++ b'/' ∷ strip_slash old_path

-- The `new_path` of `StripPrefix` before it is normalized.
abbrev pub strip_raw : Str → Str
strip_raw stripped = if is_empty stripped then codes "/" else stripped

module _ (http : Http) where
  open http use {
    Uri, Headers, path, query, into_parts, from_parts, parse_authority, parse_path_and_query,
    root_path, insert_header, append_header, remove_header,
  }

  -- `RequestHeader`: its URI and its headers.
  pub record Request : Type 0 where
    pub uri : Uri
    pub headers : Headers

  -- The URI with another path and the query that it has.
  unfoldable pub with_path : Uri → Str → Option Uri
  with_path u new_path = elim (parse_path_and_query (new_path ++ query_part (query u))) [
    | none ↦ none
    | some pq ↦ from_parts (record (into_parts u) { path_and_query = some pq })
  ]

  abbrev pub set_uri : Request → Uri → Request
  set_uri r u = record r { uri = u }

  abbrev pub set_headers : Request → Headers → Request
  set_headers r hs = record r { headers = hs }

  -- What the three path mutations share: normalize, and put the path in place of the old one.
  unfoldable pub set_path : Request → Str → Result Request
  unfolding with_path
  set_path r raw_path = ok_or bad_request (normalize_path raw_path) >>= λ new_path.
      ok_or internal_error (with_path r.uri new_path) >>= λ u. ok (set_uri r u)

  abbrev pub strip : Request → Option Str → Result Request
  strip r none = ok r
  strip r (some stripped) = set_path r (strip_raw stripped)

  -- `insert_header` with its error.
  abbrev pub insert : Str → Str → Request → Result Request
  insert name value r =
      ok_or internal_error (insert_header name value r.headers) >>= λ hs. ok (set_headers r hs)

  -- The URI with another authority; `http` and `/` where it has no scheme and no path.
  unfoldable pub with_host : Uri → Str → Option Uri
  with_host u hostname = elim (parse_authority hostname) [
    | none ↦ none
    | some authority ↦ from_parts (record (into_parts u) {
      authority = some authority;
      scheme = or_else (into_parts u).scheme (some (codes "http"));
      path_and_query = or_else (into_parts u).path_and_query (some root_path);
    })
  ]

  unfoldable pub apply_upstream_request_mutation :
      UpstreamRequestMutation → Request → Result Request
  unfolding set_path with_host rewrite_raw prepend_raw
  apply_upstream_request_mutation (UpstreamRequestMutation.set_header name value) r =
      insert name value r
  apply_upstream_request_mutation (UpstreamRequestMutation.add_header name value) r =
      ok_or internal_error (append_header name value r.headers) >>= λ hs. ok (set_headers r hs)
  apply_upstream_request_mutation (UpstreamRequestMutation.remove_header name) r =
      ok (set_headers r (remove_header name r.headers))
  apply_upstream_request_mutation (UpstreamRequestMutation.strip_prefix pre) r =
      strip r (strip_prefix (path r.uri) pre)
  apply_upstream_request_mutation (UpstreamRequestMutation.prepend_path pre) r =
      set_path r (prepend_raw pre (path r.uri))
  apply_upstream_request_mutation (UpstreamRequestMutation.rewrite_path rewrite) r =
      set_path r (rewrite_raw rewrite (path r.uri))
  apply_upstream_request_mutation (UpstreamRequestMutation.rewrite_hostname hostname) r =
      insert (codes "host") hostname r >>= λ r1.
      ok_or internal_error (with_host r1.uri hostname) >>= λ u. ok (set_uri r1 u)

  -- The loops over the mutations.
  unfoldable pub apply_mutations : List UpstreamRequestMutation → Request → Result Request
  unfolding apply_upstream_request_mutation
  apply_mutations [] r = ok r
  apply_mutations (m ∷ ms) r = apply_upstream_request_mutation m r >>= apply_mutations ms

  -- The loops that insert headers.
  unfoldable pub insert_all : List (Str × Str) → Request → Result Request
  insert_all [] r = ok r
  insert_all ((name, value) ∷ rest) r = insert name value r >>= insert_all rest

  -- What the filter reads: of the proxy and the session, the client's address where it is to be told
  -- and the two upgrade headers that the request has; of the context, the rest.
  pub record Context : Type 0 where
    pub downstream_scheme : Str
    pub client_ip : Option Str
    pub request_id : Str
    pub upgrade_headers : List (Str × Str)
    pub auth_headers : List (Str × Str)
    pub plan : Option CompiledPlan
    pub backend_index : Option ℕ

  abbrev pub forwarded_for : Option Str → List (Str × Str)
  forwarded_for none = []
  forwarded_for (some ip) = (codes "x-forwarded-for", ip) ∷ []

  abbrev pub upgrades : Option CompiledPlan → List (Str × Str) → List (Str × Str)
  upgrades none headers = []
  upgrades (some p) headers = if p.websocket then headers else []

  abbrev pub backend_mutations : Option ℕ → Option UpstreamAction → List UpstreamRequestMutation
  backend_mutations none u = []
  backend_mutations (some i) none = []
  backend_mutations (some i) (some u) = unwrap_or [] (get_elem? u.backend_request_mutations i)

  -- The mutations of the plan, then those of the chosen backend.
  abbrev pub plan_mutations : Option CompiledPlan → Option ℕ → List UpstreamRequestMutation
  plan_mutations none i = []
  plan_mutations (some p) i = p.upstream_request_mutations ++ backend_mutations i p.upstream

  unfoldable pub upstream_request_filter_inner : Context → Request → Result Request
  unfolding apply_mutations insert_all
  upstream_request_filter_inner ctx r =
      insert (codes "x-forwarded-proto") ctx.downstream_scheme r >>= λ r1.
      insert_all (forwarded_for ctx.client_ip) r1 >>= λ r2.
      insert (codes "x-request-id") ctx.request_id r2 >>= λ r3.
      insert_all (upgrades ctx.plan ctx.upgrade_headers) r3 >>= λ r4.
      insert_all ctx.auth_headers r4 >>= λ r5.
      apply_mutations (plan_mutations ctx.plan ctx.backend_index) r5 >>= λ r6.
      ok (set_headers r6 (remove_header (codes "expect") r6.headers))
