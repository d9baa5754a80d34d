-- ===== src/Compile/Table/Stored.antt =====
-- What the loop of `CompiledRouteTable::compile` stores: the compiled node of each host.
use mathlib.Core.List.{Memᴰ}
use mathlib.Core.List.Memᴰ
use mathlib.Core.Path.{subst}
use mathlib.Core.Option.{some-injective}
use proxy.Common.{
  ℕ, ◌≡◌, ◌≢◌, refl, sym, ap, ◌∙◌, ◌⊎◌, inl, inr, some, List, [], ◌∷◌, ◌++◌, arith, Memᴰ-append,
  Memᴰ-append_left, Memᴰ-append_right, Bool-cases, if◌then◌else◌,
}
use proxy.Common.Text.{Str, str_eq, str_eq_iff, str_eq_refl}
use proxy.Common.HashMap.{entry_push, bucket, bucket-entry_push}
use proxy.Ir.{HostnameMatch, HostRoute}
use proxy.Compile.Types.{HostNode, ok}
use proxy.Compile.Host.{compile_host}
use proxy.Compile.Host.Choice.{compile_host_total}
use proxy.Compile.Table.{Hosts, add_host, add_hosts, no_hosts}

-- A node is stored for a host name.
abbrev pub Stored : Hosts → HostnameMatch → HostNode → Type 0
Stored st (HostnameMatch.exact s) n = Memᴰ n (bucket s st.exact_hosts)
Stored st (HostnameMatch.prefix s) n = Memᴰ (HostnameMatch.prefix s, n) st.wildcard_hosts
Stored st (HostnameMatch.wildcard s) n = Memᴰ (HostnameMatch.wildcard s, n) st.wildcard_hosts
Stored st HostnameMatch.any n = st.any_host ≡ some n

Memᴰ-push {ℓ} : {A : Type ℓ} {a b : A} (xs : List A) → Memᴰ a (xs ++ b ∷ []) → Memᴰ a xs ⊎ (a ≡ b)
Memᴰ-push xs h = elim (Memᴰ-append xs _ h) [
  | inl m ↦ inl m
  | inr m ↦ elim (Memᴰ.cases_cons m) [ inl e ↦ inr e | inr k ↦ elim k [ ] ]
]

wild_pushed :
    (hn k : HostnameMatch) (n m : HostNode) (xs : List (HostnameMatch × HostNode))
    → Memᴰ (hn, n) (xs ++ (k, m) ∷ [])
    → Memᴰ (hn, n) xs ⊎ ((hn ≡ k) × (n ≡ m))
wild_pushed hn k n m xs h = elim (Memᴰ-push xs h) [
  | inl x ↦ inl x
  | inr e ↦ inr (ap (λ p. p.0) e, ap (λ p. p.1) e)
]

exact_pushed :
    (s t : Str) (n m : HostNode) (xs : List (Str × List HostNode))
    → Memᴰ n (bucket s (entry_push t m xs))
    → Memᴰ n (bucket s xs) ⊎ ((HostnameMatch.exact s ≡ HostnameMatch.exact t) × (n ≡ m))
exact_pushed s t n m xs h =
    let k : Memᴰ n (if str_eq t s then bucket s xs ++ m ∷ [] else bucket s xs) =
      rw bucket-entry_push at h in
    elim (Bool-cases (str_eq t s)) [
      | inl e ↦ elim (Memᴰ-push (bucket s xs) (rw e at k)) [
        | inl x ↦ inl x
        | inr y ↦ inr (ap (λ z. HostnameMatch.exact z) (sym ((str_eq_iff t s).0 e)), y)
      ]
      | inr e ↦ inl (rw e at k)
    ]

-- Storing a node stores nothing else.
Stored-add :
    (hn k : HostnameMatch) (n m : HostNode) (st : Hosts)
    → Stored (add_host k m st) hn n
    → Stored st hn n ⊎ ((hn ≡ k) × (n ≡ m))
unfolding add_host
Stored-add (HostnameMatch.exact s) (HostnameMatch.exact t) n m st h =
    exact_pushed s t n m st.exact_hosts h
Stored-add (HostnameMatch.exact s) (HostnameMatch.prefix t) n m st h = inl h
Stored-add (HostnameMatch.exact s) (HostnameMatch.wildcard t) n m st h = inl h
Stored-add (HostnameMatch.exact s) HostnameMatch.any n m st h = inl h
Stored-add (HostnameMatch.prefix s) (HostnameMatch.exact t) n m st h = inl h
Stored-add (HostnameMatch.prefix s) (HostnameMatch.prefix t) n m st h =
    wild_pushed _ _ n m st.wildcard_hosts h
Stored-add (HostnameMatch.prefix s) (HostnameMatch.wildcard t) n m st h =
    wild_pushed _ _ n m st.wildcard_hosts h
Stored-add (HostnameMatch.prefix s) HostnameMatch.any n m st h = inl h
Stored-add (HostnameMatch.wildcard s) (HostnameMatch.exact t) n m st h = inl h
Stored-add (HostnameMatch.wildcard s) (HostnameMatch.prefix t) n m st h =
    wild_pushed _ _ n m st.wildcard_hosts h
Stored-add (HostnameMatch.wildcard s) (HostnameMatch.wildcard t) n m st h =
    wild_pushed _ _ n m st.wildcard_hosts h
Stored-add (HostnameMatch.wildcard s) HostnameMatch.any n m st h = inl h
Stored-add HostnameMatch.any (HostnameMatch.exact t) n m st h = inl h
Stored-add HostnameMatch.any (HostnameMatch.prefix t) n m st h = inl h
Stored-add HostnameMatch.any (HostnameMatch.wildcard t) n m st h = inl h
Stored-add HostnameMatch.any HostnameMatch.any n m st h = inr (refl, sym (some-injective _ _ h))

-- The node itself is stored.
add-Stored : (k : HostnameMatch) (m : HostNode) (st : Hosts) → Stored (add_host k m st) k m
unfolding add_host
add-Stored (HostnameMatch.exact s) m st =
    rw (bucket-entry_push s s m st.exact_hosts, str_eq_refl s)
      (Memᴰ-append_right (bucket s st.exact_hosts) (m ∷ []) (Memᴰ.head refl))
add-Stored (HostnameMatch.prefix s) m st = Memᴰ-append_right st.wildcard_hosts _ (Memᴰ.head refl)
add-Stored (HostnameMatch.wildcard s) m st = Memᴰ-append_right st.wildcard_hosts _ (Memᴰ.head refl)
add-Stored HostnameMatch.any m st = refl

exact_kept :
    (s t : Str) (n m : HostNode) (xs : List (Str × List HostNode))
    → Memᴰ n (bucket s xs)
    → Memᴰ n (bucket s (entry_push t m xs))
exact_kept s t n m xs h = rw bucket-entry_push (elim (Bool-cases (str_eq t s)) [
  | inl e ↦ rw e (Memᴰ-append_left (bucket s xs) (m ∷ []) h)
  | inr e ↦ rw e h
])

-- What was stored stays, but for the node of the hosts without a name.
Stored-kept :
    (hn k : HostnameMatch) (n m : HostNode) (st : Hosts)
    → hn ≢ HostnameMatch.any
    → Stored st hn n
    → Stored (add_host k m st) hn n
unfolding add_host
Stored-kept (HostnameMatch.exact s) (HostnameMatch.exact t) n m st ne h =
    exact_kept s t n m st.exact_hosts h
Stored-kept (HostnameMatch.exact s) (HostnameMatch.prefix t) n m st ne h = h
Stored-kept (HostnameMatch.exact s) (HostnameMatch.wildcard t) n m st ne h = h
Stored-kept (HostnameMatch.exact s) HostnameMatch.any n m st ne h = h
Stored-kept (HostnameMatch.prefix s) (HostnameMatch.exact t) n m st ne h = h
Stored-kept (HostnameMatch.prefix s) (HostnameMatch.prefix t) n m st ne h = Memᴰ-append_left _ _ h
Stored-kept (HostnameMatch.prefix s) (HostnameMatch.wildcard t) n m st ne h = Memᴰ-append_left _ _ h
Stored-kept (HostnameMatch.prefix s) HostnameMatch.any n m st ne h = h
Stored-kept (HostnameMatch.wildcard s) (HostnameMatch.exact t) n m st ne h = h
Stored-kept (HostnameMatch.wildcard s) (HostnameMatch.prefix t) n m st ne h = Memᴰ-append_left _ _ h
Stored-kept (HostnameMatch.wildcard s) (HostnameMatch.wildcard t) n m st ne h =
    Memᴰ-append_left _ _ h
Stored-kept (HostnameMatch.wildcard s) HostnameMatch.any n m st ne h = h
Stored-kept HostnameMatch.any k n m st ne h = absurd (ne refl)

not-Stored : (hn : HostnameMatch) (n : HostNode) → Stored no_hosts hn n → ⊥
unfolding bucket
not-Stored (HostnameMatch.exact s) n h = elim h [ ]
not-Stored (HostnameMatch.prefix s) n h = elim h [ ]
not-Stored (HostnameMatch.wildcard s) n h = elim h [ ]
not-Stored HostnameMatch.any n h = ground arith

module _ (iter : List (Str × ℕ) → List (Str × ℕ)) where
  pub add_hosts_total :
      (hosts : List HostRoute) (st : Hosts) → (r : Hosts) × (add_hosts iter hosts st ≡ ok r)
  unfolding add_hosts
  add_hosts_total [] st = (st, refl)
  add_hosts_total (host ∷ hosts) st =
      let (node, e) = compile_host_total iter host in
      let (r, k) = add_hosts_total hosts (add_host host.hostname node st) in (r, rw e k)

  step :
      (host : HostRoute) (hosts : List HostRoute) (st r : Hosts)
      → add_hosts iter (host ∷ hosts) st ≡ ok r
      → (node : HostNode) × (compile_host iter host ≡ ok node)
        × (add_hosts iter hosts (add_host host.hostname node st) ≡ ok r)
  unfolding add_hosts
  step host hosts st r h =
      let (node, e) = compile_host_total iter host in
      let k : add_hosts iter hosts (add_host host.hostname node st) ≡ ok r = rw e at h in
      (node, e, k)

  kept :
      (hosts : List HostRoute) (st r : Hosts) (hn : HostnameMatch) (n : HostNode)
      → add_hosts iter hosts st ≡ ok r
      → hn ≢ HostnameMatch.any
      → Stored st hn n
      → Stored r hn n
  unfolding add_hosts
  kept [] st r hn n h ne s = let e : st ≡ r = cc in subst (λ t. Stored t hn n) e s
  kept (host ∷ hosts) st r hn n h ne s =
      let (node, e, k) = step host hosts st r h in
      kept hosts (add_host host.hostname node st) r hn n k ne
        (Stored-kept hn host.hostname n node st ne s)

  -- Each stored node is the compiled node of a host with that name.
  pub Stored-sound :
      (hosts : List HostRoute) (st r : Hosts) (hn : HostnameMatch) (n : HostNode)
      → add_hosts iter hosts st ≡ ok r
      → Stored r hn n
      → Stored st hn n
        ⊎ ((host : HostRoute) × Memᴰ host hosts
            × (hn ≡ host.hostname)
            × (compile_host iter host ≡ ok n))
  unfolding add_hosts
  Stored-sound [] st r hn n h s = let e : st ≡ r = cc in inl (subst (λ t. Stored t hn n) (sym e) s)
  Stored-sound (host ∷ hosts) st r hn n h s =
      let (node, e, k) = step host hosts st r h in
      elim (Stored-sound hosts (add_host host.hostname node st) r hn n k s) [
        | inl old ↦ elim (Stored-add hn host.hostname n node st old) [
          | inl x ↦ inl x
          | inr (a, b) ↦ inr (host, Memᴰ.head refl, a, e ∙ ap (λ y. ok y) (sym b))
        ]
        | inr (h', m, a, b) ↦ inr (h', Memᴰ.tail m, a, b)
      ]

  pub Stored-complete :
      (hosts : List HostRoute) (st r : Hosts) (host : HostRoute)
      → add_hosts iter hosts st ≡ ok r
      → Memᴰ host hosts
      → host.hostname ≢ HostnameMatch.any
      → (n : HostNode) × (compile_host iter host ≡ ok n) × Stored r host.hostname n
  Stored-complete [] st r host h m ne = elim m [ ]
  Stored-complete (h0 ∷ hosts) st r host h m ne =
      let (node, e, k) = step h0 hosts st r h in
      elim (Memᴰ.cases_cons m) [
        | inl same ↦
            let now =
              kept hosts (add_host h0.hostname node st) r h0.hostname node k
                (subst (λ (q : HostRoute). q.hostname ≢ HostnameMatch.any) same ne)
                (add-Stored h0.hostname node st) in
            subst
              (λ (q : HostRoute).
                (n : HostNode) × (compile_host iter q ≡ ok n) × Stored r q.hostname n)
              (sym same) (node, e, now)
        | inr t ↦ Stored-complete hosts (add_host h0.hostname node st) r host k t ne
      ]

  pub Stored-sound_all :
      (hosts : List HostRoute) (r : Hosts) (hn : HostnameMatch) (n : HostNode)
      → add_hosts iter hosts no_hosts ≡ ok r
      → Stored r hn n
      → (host : HostRoute) × Memᴰ host hosts
        × (hn ≡ host.hostname)
        × (compile_host iter host ≡ ok n)
  Stored-sound_all hosts r hn n h s = elim (Stored-sound hosts no_hosts r hn n h s) [
    | inl x ↦ absurd (not-Stored hn n x)
    | inr y ↦ y
  ]

  wild_add :
      (hn k : HostnameMatch) (n m : HostNode) (st : Hosts)
      → Memᴰ (hn, n) (add_host k m st).wildcard_hosts
      → Memᴰ (hn, n) st.wildcard_hosts ⊎ ((hn ≡ k) × (n ≡ m))
  unfolding add_host
  wild_add hn (HostnameMatch.exact t) n m st h = inl h
  wild_add hn (HostnameMatch.prefix t) n m st h = wild_pushed _ _ n m st.wildcard_hosts h
  wild_add hn (HostnameMatch.wildcard t) n m st h = wild_pushed _ _ n m st.wildcard_hosts h
  wild_add hn HostnameMatch.any n m st h = inl h

  pub wild_sound :
      (hosts : List HostRoute) (st r : Hosts) (hn : HostnameMatch) (n : HostNode)
      → add_hosts iter hosts st ≡ ok r
      → Memᴰ (hn, n) r.wildcard_hosts
      → Memᴰ (hn, n) st.wildcard_hosts
        ⊎ ((host : HostRoute) × Memᴰ host hosts
            × (hn ≡ host.hostname)
            × (compile_host iter host ≡ ok n))
  unfolding add_hosts
  wild_sound [] st r hn n h s =
      let e : st ≡ r = cc in inl (subst (λ (t : Hosts). Memᴰ (hn, n) t.wildcard_hosts) (sym e) s)
  wild_sound (host ∷ hosts) st r hn n h s =
      let (node, e, k) = step host hosts st r h in
      elim (wild_sound hosts (add_host host.hostname node st) r hn n k s) [
        | inl old ↦ elim (wild_add hn host.hostname n node st old) [
          | inl x ↦ inl x
          | inr (a, b) ↦ inr (host, Memᴰ.head refl, a, e ∙ ap (λ y. ok y) (sym b))
        ]
        | inr (h', m, a, b) ↦ inr (h', Memᴰ.tail m, a, b)
      ]
