-- ===== src/Catalog/LeadTimes/Bounds.antt =====
-- The average and the percentiles of lead times lie between the least and the greatest.
use ddash.Base.{
  ℕ, suc, ◌+◌, ◌*◌, ◌/◌, ◌^◌, ◌≤◌, ◌<◌, ℤ, pos, int_le, ◌+ℤ◌, wrap64, div64, true, false, some,
  List, [], ◌∷◌, length, get_elem?, All, All-sort_by, length-sort_by, sort_by, sort_by-IsSorted,
  IsSorted, ◌≡◌, refl, ◌∙◌, arith,
}
use native.Mathlib.Nat.{mul-suc, div-le_of_le-mul, le-div_iff_mul-le, mul_comm}
use ddash.Catalog.LeadTimes.{
  LeadTimeSummary, nearest_rank, percentile, sum_values, summarize_lead_times,
}
use ddash.Catalog.LeadTimes.Ranks.{
  nearest_rank-lt, nearest_rank_mono, get_elem?-total, get_elem?-All, get_elem?-IsSorted,
}

-- A value between two bounds.
pub record IsWithin (lo hi : ℕ) (v : ℤ) : Type 0 where
  pub size : ℕ
  pub is : v ≡ pos size
  pub above : lo ≤ size
  pub below : size ≤ hi

wrap64-small : (a b : ℕ) → a + b < 2 ^ 63 → wrap64 (pos a +ℤ pos b) ≡ pos (a + b)
unfolding wrap64 ◌+ℤ◌
wrap64-small a b h = ground arith

sum_values_lem :
    (lo hi a : ℕ) (vs : List ℤ)
    → All (IsWithin lo hi) vs
    → a + hi * length vs < 2 ^ 63
    → (t : ℕ) × (sum_values (pos a) vs ≡ pos (a + t)) × (lo * length vs ≤ t) × (t ≤ hi * length vs)
unfolding sum_values
sum_values_lem lo hi a [] h room =
    (0, (let e : a + 0 ≡ a = omega arith in rw e), grind arith, grind arith)
sum_values_lem lo hi a (v ∷ vs) (w, ws) room =
    let top : hi * suc (length vs) ≡ hi * length vs + hi = mul-suc hi (length vs) in
    let bottom : lo * suc (length vs) ≡ lo * length vs + lo = mul-suc lo (length vs) in
    let (t, sum, above, below) = sum_values_lem lo hi (a + w.size) vs ws (omega arith) in
    let small : a + w.size < 2 ^ 63 = omega arith in
    let grouped : a + w.size + t ≡ a + (w.size + t) = omega arith in
    (
      w.size + t,
      rw (w.is, wrap64-small a w.size small) (sum ∙ rw grouped),
      omega arith,
      omega arith,
    )

int_le_total : (a b : ℤ) → int_le a b ≡ false → int_le b a ≡ true
unfolding int_le
int_le_total a b h = ground arith

int_le_trans : (a b c : ℤ) → int_le a b ≡ true → int_le b c ≡ true → int_le a c ≡ true
unfolding int_le
int_le_trans a b c h k = ground arith

int_le_refl : (a : ℤ) → int_le a a ≡ true
unfolding int_le
int_le_refl a = ground arith

summary_lem :
    (lo hi : ℕ) (vs : List ℤ)
    → 0 < length vs
    → All (IsWithin lo hi) vs
    → hi * length vs < 2 ^ 63
    → IsWithin lo hi (div64 (sum_values (pos 0) vs) (length vs))
unfolding div64
summary_lem lo hi vs some_value within room =
    let room' : 0 + hi * length vs < 2 ^ 63 = omega arith in
    let (t, sum, above, below) = sum_values_lem lo hi 0 vs within room' in
    let flipped : hi * length vs ≡ length vs * hi = mul_comm hi (length vs) in
    let top : 0 + t ≤ length vs * hi = omega arith in
    let bottom : lo * length vs ≤ 0 + t = omega arith in
    rw sum (record {
      size = (0 + t) / length vs;
      is = refl;
      above = (le-div_iff_mul-le some_value).1 bottom;
      below = div-le_of_le-mul (length vs) top;
    })

-- The percentile of a list that is not empty is one of its values.
percentile_at :
    (pct : ℕ) (vs : List ℤ)
    → 0 < pct
    → pct < 100
    → 0 < length vs
    → percentile pct vs ≡ get_elem? vs (nearest_rank pct (length vs))
unfolding percentile
percentile_at pct [] h k some_value = absurd (omega arith)
percentile_at pct (v ∷ vs) h k some_value = ground arith

-- For samples between two bounds, so few that their sum fits in 63 bits: the summary counts them,
-- its average and its percentiles lie between the bounds, no index is out of range, and the 50th
-- percentile is not above the 95th.
pub summarize_lead_times_bounds :
    (lo hi : ℕ) (v : ℤ) (vs : List ℤ)
    → All (IsWithin lo hi) (v ∷ vs)
    → hi * length (v ∷ vs) < 2 ^ 63
    → (s : LeadTimeSummary) × (summarize_lead_times (v ∷ vs) ≡ some s)
      × (s.samples ≡ length (v ∷ vs))
      × IsWithin lo hi s.avg_seconds
      × IsWithin lo hi s.p50_seconds
      × IsWithin lo hi s.p95_seconds
      × (int_le s.p50_seconds s.p95_seconds ≡ true)
unfolding summarize_lead_times
summarize_lead_times_bounds lo hi v vs within room =
    let ordered : List ℤ = sort_by int_le (v ∷ vs) in
    let same : length ordered ≡ length (v ∷ vs) = length-sort_by int_le (v ∷ vs) in
    let some_value : 0 < length ordered = omega arith in
    let all_within : All (IsWithin lo hi) ordered =
      All-sort_by int_le (IsWithin lo hi) (v ∷ vs) within in
    let sorted : IsSorted int_le ordered =
      sort_by-IsSorted int_le int_le_total int_le_trans (v ∷ vs) in
    let (p50, got50) =
      get_elem?-total ordered (nearest_rank 50 (length ordered))
        (nearest_rank-lt 50 (length ordered) some_value) in
    let (p95, got95) =
      get_elem?-total ordered (nearest_rank 95 (length ordered))
        (nearest_rank-lt 95 (length ordered) some_value) in
    let at50 = percentile_at 50 ordered (omega arith) (omega arith) some_value ∙ got50 in
    let at95 = percentile_at 95 ordered (omega arith) (omega arith) some_value ∙ got95 in
    (
      record {
        samples = length ordered;
        avg_seconds = div64 (sum_values (pos 0) ordered) (length ordered);
        p50_seconds = p50;
        p95_seconds = p95;
      },
      rw (at50, at95),
      same,
      summary_lem lo hi ordered some_value all_within (rw same room),
      get_elem?-All (IsWithin lo hi) ordered (nearest_rank 50 (length ordered)) p50 all_within
          got50,
      get_elem?-All (IsWithin lo hi) ordered (nearest_rank 95 (length ordered)) p95 all_within
          got95,
      get_elem?-IsSorted int_le ordered (nearest_rank 50 (length ordered))
          (nearest_rank 95 (length ordered)) p50 p95 int_le_refl sorted
          (nearest_rank_mono (length ordered) some_value) got50 got95,
    )
