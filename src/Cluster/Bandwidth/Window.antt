-- ===== src/Cluster/Bandwidth/Window.antt =====
-- The meter forgets old samples; its rates, and the limiter's decisions, are those of the whole
-- history cut to the window.
use proxy.Common.{
  inl, inr, ℕ, suc, ◌+◌, ◌-◌, ◌*◌, ◌≤◌, ◌<◌, ◌==◌, min, ◌≡◌, refl, ap, ◌∙◌, sym, List, [], ◌∷◌,
  ◌++◌, append_assoc, append-nil, if◌then◌else◌, leb, length, filter, All, Bool-cases, arith,
}
use mathlib.Core.Path.{◌≡⟨◌⟩◌, ◌∎}
use proxy.Cluster.Bandwidth.{
  u64_mod, second, saturating_add, Sample, BandwidthMeter, new_meter, pop_old, record_sample,
  add_samples, Floats, BandwidthLimitResult, AggregateRate, rates, aggregate_rate, decide, check,
}

-- The specification keeps every sample, and cuts when it is asked.
abbrev pub in_window : ℕ → ℕ → List Sample → List Sample
in_window now window history = filter (λ s. leb now (s.time + window)) history

abbrev pub sum_in : List Sample → ℕ
sum_in [] = 0
sum_in (s ∷ rest) = s.bytes_in + sum_in rest

abbrev pub sum_out : List Sample → ℕ
sum_out [] = 0
sum_out (s ∷ rest) = s.bytes_out + sum_out rest

abbrev pub saturated : List Sample → ℕ × ℕ × ℕ
saturated kept = (min (sum_in kept) (u64_mod - 1), min (sum_out kept) (u64_mod - 1), length kept)

-- The meter after the samples of a history, in order.
abbrev pub record_all : List Sample → BandwidthMeter → BandwidthMeter
record_all [] m = m
record_all (s ∷ rest) m = record_all rest (record_sample s m)

module _ (now window : ℕ) where
  add_samples-pop_old :
      (at : ℕ) (ss : List Sample) (a b c : ℕ)
      → at ≤ now
      → add_samples now window (pop_old at window ss) a b c ≡ add_samples now window ss a b c
  unfolding add_samples pop_old
  add_samples-pop_old at [] a b c h = refl
  add_samples-pop_old at (s ∷ ss) a b c h = ground (arith, add_samples-pop_old at ss a b c h)

  -- The rest of the loop, from the totals so far.
  go_on : List Sample → ℕ × ℕ × ℕ → ℕ × ℕ × ℕ
  go_on ys (i, o, n) = add_samples now window ys i o n

  -- Two lists that add up alike still do with the same samples after them.
  add_samples-append :
      (xs ys : List Sample) (a b c : ℕ)
      → add_samples now window (xs ++ ys) a b c ≡ go_on ys (add_samples now window xs a b c)
  unfolding add_samples go_on
  add_samples-append [] ys a b c = refl
  add_samples-append (x ∷ xs) ys a b c = elim (Bool-cases (leb now (x.time + window))) [
    | inl e ↦ rw e (add_samples-append xs ys _ _ (suc c))
    | inr e ↦ rw e (add_samples-append xs ys a b c)
  ]

  add_samples-record_all :
      (history : List Sample) (m : BandwidthMeter) (a b c : ℕ)
      → m.window ≡ window
      → All (λ s. s.time ≤ now) history
      → add_samples now window (record_all history m).samples a b c
        ≡ add_samples now window (m.samples ++ history) a b c
  unfolding record_sample
  add_samples-record_all [] m a b c w h = rw (append-nil m.samples)
  add_samples-record_all (s ∷ rest) m a b c w h =
      let kept = record_sample s m in
      let old = m.samples ++ s ∷ [] in
      add_samples now window (record_all rest kept).samples a b c
      ≡⟨ add_samples-record_all rest kept a b c w h.1 ⟩
        add_samples now window (kept.samples ++ rest) a b c
      ≡⟨ add_samples-append kept.samples rest a b c ⟩
        go_on rest (add_samples now window kept.samples a b c)
      ≡⟨ ap (go_on rest) (popped a b c) ⟩ go_on rest (add_samples now window old a b c)
      ≡⟨ sym (add_samples-append old rest a b c) ⟩ add_samples now window (old ++ rest) a b c
      ≡⟨ ap (λ l. add_samples now window l a b c) (append_assoc m.samples (s ∷ []) rest) ⟩
        add_samples now window (m.samples ++ s ∷ rest) a b c ∎
    where
      popped :
          (a b c : ℕ)
          → add_samples now window (record_sample s m).samples a b c
            ≡ add_samples now window (m.samples ++ s ∷ []) a b c
      popped a b c = rw w (add_samples-pop_old s.time (m.samples ++ s ∷ []) a b c h.0)

  -- Adding up a list cut to the window gives the saturated sums.
  add_samples-eq-saturated :
      (ss : List Sample) (a b c : ℕ)
      → a < u64_mod
      → b < u64_mod
      → add_samples now window ss a b c ≡ (
        min (a + sum_in (in_window now window ss)) (u64_mod - 1),
        min (b + sum_out (in_window now window ss)) (u64_mod - 1),
        c + length (in_window now window ss),
      )
  unfolding add_samples saturating_add
  add_samples-eq-saturated [] a b c h k = ground arith
  add_samples-eq-saturated (s ∷ ss) a b c h k =
      let i = saturating_add a s.bytes_in in
      let o = saturating_add b s.bytes_out in
      elim (Bool-cases (leb now (s.time + window))) [
        | inl e ↦ rw e (ground (arith, add_samples-eq-saturated ss i o (suc c)))
        | inr e ↦ rw e (add_samples-eq-saturated ss a b c h k)
      ]

record_all-window :
    (history : List Sample) (m : BandwidthMeter) → (record_all history m).window ≡ m.window
unfolding record_sample
record_all-window [] m = refl
record_all-window (s ∷ rest) m = record_all-window rest (record_sample s m)

-- What the totals are, from where they start.
abbrev saturated_from : ℕ → ℕ → ℕ → List Sample → ℕ × ℕ × ℕ
saturated_from a b c kept =
    (min (a + sum_in kept) (u64_mod - 1), min (b + sum_out kept) (u64_mod - 1), c + length kept)

saturated_from-zero : (kept : List Sample) → saturated_from 0 0 0 kept ≡ saturated kept
saturated_from-zero kept = ground arith

-- The rates by the specification.
abbrev pub history_rates : (f : Floats) → ℕ → ℕ → List Sample → AggregateRate f
history_rates f now window history = rates f window (saturated (in_window now window history))

aggregate_rate-record_all :
    (f : Floats) (now window_secs : ℕ) (history : List Sample)
    → All (λ s. s.time ≤ now) history
    → aggregate_rate f now (record_all history (new_meter window_secs))
      ≡ history_rates f now (window_secs * second) history
unfolding aggregate_rate
aggregate_rate-record_all f now window_secs history h =
    let window = window_secs * second in
    let m = record_all history (new_meter window_secs) in
    let same : m.window ≡ window = record_all-window history (new_meter window_secs) in
    let totals : add_samples now window m.samples 0 0 0 ≡ saturated (in_window now window history) =
      add_samples-record_all now window history (new_meter window_secs) 0 0 0 refl h
      ∙ add_samples-eq-saturated now window history 0 0 0 (omega arith) (omega arith)
      ∙ saturated_from-zero (in_window now window history) in
    ap (λ w. rates f w (add_samples now w m.samples 0 0 0)) same ∙ ap (rates f window) totals

-- At any time that is not before the samples of the history, the rates of the meter that has
-- recorded them are those of the saturated sums over the part of the history within the window, and
-- the limiter decides by those rates, allowing everything where the limit is zero.
pub meter_refines_history :
    (f : Floats) (now window_secs limit : ℕ) (history : List Sample)
    → All (λ s. s.time ≤ now) history
    → (aggregate_rate f now (record_all history (new_meter window_secs))
        ≡ history_rates f now (window_secs * second) history)
      × (check f now (record {
        limit_bytes_per_sec = limit;
        meter = record_all history (new_meter window_secs);
      })
          ≡ (if limit == 0
              then BandwidthLimitResult.allow
              else decide f limit (history_rates f now (window_secs * second) history)))
unfolding check
meter_refines_history f now window_secs limit history h =
    let r = aggregate_rate-record_all f now window_secs history h in
    (r, ap (λ x. if limit == 0 then BandwidthLimitResult.allow else decide f limit x) r)
