-- ===== src/Metrics/Latency.antt =====
-- src/metrics.rs, `record_latency` and `latency_percentiles`.
use ws_fabric.Prelude.{
  ℕ, suc, ◌-◌, ◌*◌, ◌/◌, ◌≤◌, ◌<◌, ◌≡◌, refl, subst, sym, ap, zero, append-nil, append_assoc, ◌∙◌,
  List, [], ◌∷◌, ◌++◌, some, arith, inl, inr, length, get_elem?, drop, ltb, Bool-cases,
  length-append, length-drop,
}
use ws_fabric.Metrics.{
  ConnectionMetrics, new, push_latency, record_latency, LatencyPercentiles, percentiles_of,
  percentiles, latency_percentiles,
}
use ws_fabric.Metrics.Sorted.{
  sort, IsSorted, sort-IsSorted, length-sort, get_elem?-in, get_elem?_mono,
}

-- The measurements that a collector has taken.
pub measure : List ℕ → ConnectionMetrics → ConnectionMetrics
measure [] m = m
measure (micros ∷ more) m = measure more (record_latency micros m)

-- The last so many entries.
abbrev pub last_entries : ℕ → List ℕ → List ℕ
last_entries n xs = drop (length xs - n) xs

drop-append : (n : ℕ) (xs ys : List ℕ) → n ≤ length xs → drop n (xs ++ ys) ≡ drop n xs ++ ys
drop-append zero xs ys h = refl
drop-append (suc n) [] ys h = absurd (omega arith)
drop-append (suc n) (x ∷ xs) ys h = drop-append n xs ys (omega arith)

drop_one-drop : (n : ℕ) (xs : List ℕ) → drop 1 (drop n xs) ≡ drop (suc n) xs
drop_one-drop zero xs = refl
drop_one-drop (suc n) [] = refl
drop_one-drop (suc n) (x ∷ xs) = drop_one-drop n xs

push_latency-last_entries :
    (x : ℕ) (xs : List ℕ)
    → push_latency x (last_entries 1000 xs) ≡ last_entries 1000 (xs ++ (x ∷ []))
push_latency-last_entries x xs =
    let n : ℕ = length xs - 1000 in
    let kept : ℕ = length (drop n xs ++ (x ∷ [])) in
    let longer : length (xs ++ (x ∷ [])) ≡ suc (length xs) =
      omega (arith, length-append xs (x ∷ [])) in
    let count : kept ≡ suc (length xs - n) =
      omega (arith, length-append (drop n xs) (x ∷ []), length-drop n xs) in
    elim (Bool-cases (ltb 1000 kept)) [
      | inl e ↦
          let full : 1000 ≤ length xs = ground (arith, count) in
          let next : length (xs ++ (x ∷ [])) - 1000 ≡ suc n = omega (arith, longer, full) in
          rw (e, next)
            (ap (drop 1) (sym (drop-append n xs (x ∷ []) (omega arith)))
              ∙ drop_one-drop n (xs ++ (x ∷ [])))
      | inr e ↦
          let short : length xs < 1000 = ground (arith, count) in
          let now : length (xs ++ (x ∷ [])) - 1000 ≡ 0 = omega (arith, longer, short) in
          let before : length xs - 1000 ≡ 0 = omega (arith, short) in rw (e, now, before) refl
    ]

latencies-measure :
    (taken before : List ℕ) (m : ConnectionMetrics)
    → m.latencies ≡ last_entries 1000 before
    → (measure taken m).latencies ≡ last_entries 1000 (before ++ taken)
unfolding measure record_latency
latencies-measure [] before m h = h ∙ ap (last_entries 1000) (sym (append-nil before))
latencies-measure (x ∷ taken) before m h =
    latencies-measure taken (before ++ (x ∷ [])) (record_latency x m)
      (ap (push_latency x) h ∙ push_latency-last_entries x before)
    ∙ ap (last_entries 1000) (append_assoc before (x ∷ []) taken)

-- A collector keeps the last 1000 latencies that were measured, in order.
pub record_latency_lem : (taken : List ℕ) → (measure taken new).latencies ≡ last_entries 1000 taken
record_latency_lem taken = latencies-measure taken [] new refl

-- The percentiles of a sorted vector.
pub record ArePercentiles (sorted : List ℕ) (p : LatencyPercentiles) : Type 0 where
  pub at_p50 : get_elem? sorted (length sorted * 50 / 100) ≡ some p.p50
  pub at_p95 : get_elem? sorted (length sorted * 95 / 100) ≡ some p.p95
  pub at_p99 : get_elem? sorted (length sorted * 99 / 100) ≡ some p.p99
  pub at_p999 : get_elem? sorted ((length sorted - 1) * 999 / 1000) ≡ some p.p999
  pub ordered : (p.p50 ≤ p.p95) × (p.p95 ≤ p.p99)

percentiles_of-found :
    (sorted : List ℕ) (a b c d : ℕ)
    → get_elem? sorted (length sorted * 50 / 100) ≡ some a
    → get_elem? sorted (length sorted * 95 / 100) ≡ some b
    → get_elem? sorted (length sorted * 99 / 100) ≡ some c
    → get_elem? sorted ((length sorted - 1) * 999 / 1000) ≡ some d
    → percentiles_of sorted ≡ some (record { p50 = a; p95 = b; p99 = c; p999 = d })
percentiles_of-found sorted a b c d at_a at_b at_c at_d = rw (at_a, at_b, at_c, at_d) refl

percentiles_of_lem :
    (sorted : List ℕ)
    → 0 < length sorted
    → IsSorted sorted
    → (p : LatencyPercentiles) × (percentiles_of sorted ≡ some p) × ArePercentiles sorted p
percentiles_of_lem sorted h s =
    let (a, at_a) = get_elem?-in sorted (length sorted * 50 / 100) (omega arith) in
    let (b, at_b) = get_elem?-in sorted (length sorted * 95 / 100) (omega arith) in
    let (c, at_c) = get_elem?-in sorted (length sorted * 99 / 100) (omega arith) in
    let (d, at_d) = get_elem?-in sorted ((length sorted - 1) * 999 / 1000) (omega arith) in
    (
      record { p50 = a; p95 = b; p99 = c; p999 = d },
      percentiles_of-found sorted a b c d at_a at_b at_c at_d,
      record {
        at_p50 = at_a;
        at_p95 = at_b;
        at_p99 = at_c;
        at_p999 = at_d;
        ordered = (
          get_elem?_mono sorted (length sorted * 50 / 100) (length sorted * 95 / 100) a b s
              (omega arith) at_a at_b,
          get_elem?_mono sorted (length sorted * 95 / 100) (length sorted * 99 / 100) b c s
              (omega arith) at_b at_c,
        );
      },
    )

-- After a measurement the percentiles are always found, no index being out of bounds: they are
-- entries of the sorted latencies, and the median is at most the 95th, that at most the 99th.
pub latency_percentiles_lem :
    (x : ℕ) (xs : List ℕ) (m : ConnectionMetrics)
    → m.latencies ≡ x ∷ xs
    → (p : LatencyPercentiles) × (latency_percentiles m ≡ some p)
      × ArePercentiles (sort m.latencies) p
latency_percentiles_lem x xs m e =
    subst (λ l. (p : LatencyPercentiles) × (percentiles l ≡ some p) × ArePercentiles (sort l) p)
      (sym e)
      (percentiles_of_lem (sort (x ∷ xs)) (omega (arith, length-sort (x ∷ xs)))
        (sort-IsSorted (x ∷ xs)))
