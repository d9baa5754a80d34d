-- ===== src/Compile/Table/HostNodes.antt =====
-- The candidates of `find_host_node` on a compiled table, and the choice between them.
use mathlib.Core.List.{Memᴰ}
use mathlib.Core.List.Memᴰ
use mathlib.Core.Path.{subst}
use mathlib.Core.Option.{some-injective}
use proxy.Common.{
  ℕ, ◌≤◌, ◌<◌, ◌≡◌, refl, sym, ap, ◌∙◌, ◌⊎◌, inl, inr, Bool, true, false, none, some, List, [], ◌∷◌,
  arith, Memᴰ-append, Memᴰ-append_left, Memᴰ-append_right, Bool-cases, Option-cases, if◌then◌else◌,
  filter, filter_map_sound, filter_map_complete, filter_sound, filter_complete, find, find_sound,
  find-none, max_of, max_of-le, max_of-reached, ◌==◌, ==_iff,
}
use proxy.Common.Text.{Str, str_eq_iff, str_eq_refl}
use proxy.Common.HashMap.{bucket}
use proxy.Common.Sort.{sort_by, mem-sort_by, sort_by-mem}
use proxy.Ir.{HostnameMatch, HostRoute, RouteTable}
use proxy.Compile.Types.{HostNode, ok}
use proxy.Compile.Request.{ir_hostname_matches}
use proxy.Compile.Host.{compile_host}
use proxy.Compile.Table.{
  Hosts, no_hosts, add_hosts, wildcard_gt, sorted_table, host_candidates, wild_candidates,
  option_list, listener_score, route_score, most_specific,
}
use proxy.Compile.Table.Stored.{Stored, Stored-sound_all, wild_sound}

reached_in {ℓ} :
    {A : Type ℓ} (f : A → ℕ) (xs : List A) {c : A}
    → Memᴰ c xs
    → (a : A) × Memᴰ a xs × (f a ≡ max_of f xs)
reached_in f [] m = elim m [ ]
reached_in f (x ∷ xs) m = max_of-reached f x xs

-- The choice: the greatest listener score, then the greatest route score.
pub most_specific_sound :
    (cs : List HostNode) (n c : HostNode)
    → most_specific cs ≡ some n
    → Memᴰ c cs
    → Memᴰ n cs
      × ((listener_score c < listener_score n)
          ⊎ ((listener_score c ≡ listener_score n) × (route_score c ≤ route_score n)))
unfolding most_specific
most_specific_sound [] n c h m = elim m [ ]
most_specific_sound (x ∷ xs) n c h m =
    let top = max_of listener_score (x ∷ xs) in
    let best = filter (λ k. listener_score k == top) (x ∷ xs) in
    let (mb, hit) = find_sound (λ k. route_score k == max_of route_score best) best n h in
    let (mn, at_top) = filter_sound (λ k. listener_score k == top) (x ∷ xs) mb in
    let en : listener_score n ≡ top = (==_iff _ _).0 at_top in
    let er : route_score n ≡ max_of route_score best = (==_iff _ _).0 hit in
    let below : listener_score c ≤ top = max_of-le listener_score (x ∷ xs) m in
    (
      mn,
      elim (Bool-cases (listener_score c == top)) [
        | inl e ↦
            let mc = filter_complete (λ k. listener_score k == top) (x ∷ xs) m e in
            let le = max_of-le route_score best mc in
            inr ((==_iff _ _).0 e ∙ sym en, omega (arith, le, er))
        | inr e ↦ inl (ground (arith, below, en, e))
      ],
    )

pub most_specific_mem : (cs : List HostNode) (n : HostNode) → most_specific cs ≡ some n → Memᴰ n cs
unfolding most_specific
most_specific_mem [] n h = ground arith
most_specific_mem (x ∷ xs) n h = (most_specific_sound (x ∷ xs) n x h (Memᴰ.head refl)).0

pub most_specific_complete :
    (cs : List HostNode) (c : HostNode) → Memᴰ c cs → (n : HostNode) × (most_specific cs ≡ some n)
unfolding most_specific
most_specific_complete [] c m = elim m [ ]
most_specific_complete (x ∷ xs) c m =
    let top = max_of listener_score (x ∷ xs) in
    let best = filter (λ k. listener_score k == top) (x ∷ xs) in
    let (a, ma, ea) = max_of-reached listener_score x xs in
    let mb : Memᴰ a best =
      filter_complete (λ k. listener_score k == top) (x ∷ xs) ma ((==_iff _ _).1 ea) in
    let (b, mbb, eb) = reached_in route_score best mb in
    elim (Option-cases (find (λ k. route_score k == max_of route_score best) best)) [
      | inr (n, f) ↦ (n, f)
      | inl f ↦ absurd (
          ground (
            arith,
            find-none _ best b f mbb,
            (==_iff (route_score b) (max_of route_score best)).1 eb,
          ))
    ]

if_some : {b : Bool} {x y : HostNode} → (if b then some x else none) ≡ some y → (b ≡ true) × (x ≡ y)
if_some {b = true} h = (refl, some-injective _ _ h)
if_some {b = false} h = ground arith

module _ (iter : List (Str × ℕ) → List (Str × ℕ)) (ir : RouteTable) (host : Str) where
  abbrev pub Accepted : HostNode → Type 0
  Accepted n =
      (h : HostRoute) × Memᴰ h ir.hosts
      × (ir_hostname_matches host h.hostname ≡ true)
      × (compile_host iter h ≡ ok n)

  wild_candidate_sound :
      (st : Hosts) (n : HostNode)
      → add_hosts iter ir.hosts no_hosts ≡ ok st
      → Memᴰ n (wild_candidates (sorted_table ir st) host)
      → Accepted n
  wild_candidate_sound st n e w =
      let (x, mx, f) =
        filter_map_sound (λ x. if ir_hostname_matches host x.0 then some x.1 else none)
          (sort_by wildcard_gt st.wildcard_hosts) w in
      let (fits, same) = if_some f in
      elim (wild_sound iter ir.hosts no_hosts st x.0 x.1 e
        (mem-sort_by wildcard_gt st.wildcard_hosts mx)) [
          | inl old ↦ elim old [ ]
          | inr (h, mh, s, c) ↦ (
            h,
            mh,
            subst (λ k. ir_hostname_matches host k ≡ true) s fits,
            c ∙ ap (λ y. ok y) same,
          )
        ]

  any_candidate_sound :
      (st : Hosts) (n : HostNode)
      → add_hosts iter ir.hosts no_hosts ≡ ok st
      → Memᴰ n (option_list st.any_host)
      → Accepted n
  unfolding ir_hostname_matches
  any_candidate_sound st n e m = elim (Option-cases st.any_host) [
    | inl k ↦ elim (rw k at m) [ ]
    | inr (x, k) ↦ elim (Memᴰ.cases_cons (rw k at m)) [
      | inr bad ↦ elim bad [ ]
      | inl same ↦
          let (h, mh, s, c) =
            Stored-sound_all iter ir.hosts st HostnameMatch.any n e
              (k ∙ ap (λ y. some y) (sym same)) in
          (h, mh, subst (λ k. ir_hostname_matches host k ≡ true) s refl, c)
    ]
  ]

  -- A candidate is the compiled node of a host whose name accepts the request's.
  pub candidate_sound :
      (st : Hosts) (n : HostNode)
      → add_hosts iter ir.hosts no_hosts ≡ ok st
      → Memᴰ n (host_candidates (sorted_table ir st) host)
      → Accepted n
  unfolding ir_hostname_matches
  candidate_sound st n e m = elim (Memᴰ-append (bucket host st.exact_hosts) _ m) [
    | inl b ↦
        let (h, mh, s, c) = Stored-sound_all iter ir.hosts st (HostnameMatch.exact host) n e b in
        (h, mh, subst (λ k. ir_hostname_matches host k ≡ true) s (str_eq_refl host), c)
    | inr rest ↦
        elim (Memᴰ-append (wild_candidates (sorted_table ir st) host) (option_list st.any_host)
          rest) [ inl w ↦ wild_candidate_sound st n e w | inr a ↦ any_candidate_sound st n e a ]
  ]

  wild_stored :
      (st : Hosts) (hn : HostnameMatch) (n : HostNode)
      → ir_hostname_matches host hn ≡ true
      → Memᴰ (hn, n) st.wildcard_hosts
      → Memᴰ n (host_candidates (sorted_table ir st) host)
  wild_stored st hn n t m = Memᴰ-append_right (bucket host st.exact_hosts) _ (
      Memᴰ-append_left (wild_candidates (sorted_table ir st) host) _
        (filter_map_complete _ _ (sort_by-mem wildcard_gt st.wildcard_hosts m) (rw t refl)))

  pub stored_candidate :
      (st : Hosts) (hn : HostnameMatch) (n : HostNode)
      → ir_hostname_matches host hn ≡ true
      → Stored st hn n
      → Memᴰ n (host_candidates (sorted_table ir st) host)
  unfolding ir_hostname_matches
  stored_candidate st (HostnameMatch.exact s) n t m =
      let e = (str_eq_iff host s).0 t in
      Memᴰ-append_left (bucket host st.exact_hosts) _
        (subst (λ k. Memᴰ n (bucket k st.exact_hosts)) (sym e) m)
  stored_candidate st (HostnameMatch.prefix s) n t m = wild_stored st _ n t m
  stored_candidate st (HostnameMatch.wildcard s) n t m = wild_stored st _ n t m
  stored_candidate st HostnameMatch.any n t m =
      Memᴰ-append_right (bucket host st.exact_hosts) _
        (Memᴰ-append_right (wild_candidates (sorted_table ir st) host) _ (rw m (Memᴰ.head refl)))
