-- ===== src/Catalog/LeadTimes.antt =====
-- The statistics of lead times in apps/ddash/internal/application/servicecatalog/service.go. The
-- fraction of a percentile is given in hundredths; `math.Ceil(p * float64(n))` is then the quotient
-- rounded up, since for fewer than 2 ^ 48 samples the product's rounding error is too small to carry
-- it over a whole number. An index out of range, which would panic, gives none.
pub mod Ranks
pub mod Bounds
use ddash.Base.{
  ℕ, zero, suc, ◌+◌, ◌-◌, ◌*◌, ◌/◌, String, ◌==◌, ℤ, pos, negsuc, nonpos, int_le, ◌+ℤ◌, wrap64,
  div64, eqb, leb, ltb, Bool, true, false, not, Option, none, some, List, [], ◌∷◌, ◌++◌, map,
  length, get_elem?, any, sort_by, if◌then◌else◌,
}
use ddash.Base.Text.{is_empty}
use ddash.Effect.{Exec, pure, ◌>>=◌}
use ddash.Store.{World}
use ddash.Environments.{text_le}

pub record LeadTimeSummary : Type 0 where
  pub samples : ℕ
  pub avg_seconds : ℤ
  pub p50_seconds : ℤ
  pub p95_seconds : ℤ

abbrev pub no_samples : LeadTimeSummary
no_samples = record { samples = 0; avg_seconds = pos 0; p50_seconds = pos 0; p95_seconds = pos 0 }

-- The index of a percentile among n values.
unfoldable pub nearest_rank : ℕ → ℕ → ℕ
nearest_rank pct n = let idx = (pct * n + 99) / 100 - 1 in if leb n idx then n - 1 else idx

unfoldable pub percentile : ℕ → List ℤ → Option ℤ
unfolding nearest_rank
percentile pct [] = some (pos 0)
percentile pct (x ∷ xs) =
    if eqb pct 0
    then some x
    else if leb 100 pct
    then get_elem? (x ∷ xs) (length xs)
    else get_elem? (x ∷ xs) (nearest_rank pct (length (x ∷ xs)))

-- `sum += value`
unfoldable pub sum_values : ℤ → List ℤ → ℤ
sum_values sum [] = sum
sum_values sum (v ∷ vs) = sum_values (wrap64 (sum +ℤ v)) vs

abbrev with_percentiles : List ℤ → Option ℤ → Option ℤ → Option LeadTimeSummary
with_percentiles ordered (some p50) (some p95) = some (record {
  samples = length ordered;
  avg_seconds = div64 (sum_values (pos 0) ordered) (length ordered);
  p50_seconds = p50;
  p95_seconds = p95;
})
with_percentiles ordered _ _ = none

abbrev summarize_ordered : List ℤ → Option LeadTimeSummary
summarize_ordered ordered = with_percentiles ordered (percentile 50 ordered) (percentile 95 ordered)

unfoldable pub summarize_lead_times : List ℤ → Option LeadTimeSummary
unfolding percentile sum_values
summarize_lead_times [] = some no_samples
summarize_lead_times (v ∷ vs) = summarize_ordered (sort_by int_le (v ∷ vs))

-- ports.ServiceLeadTimeSample
pub record Sample : Type 0 where
  pub service_name : String
  pub day_utc : String
  pub lead_seconds : ℤ

-- `groups[key] = append(groups[key], value)` on a map with a list of values for each key.
unfoldable pub put_value : String → ℤ → List (String × List ℤ) → List (String × List ℤ)
put_value key v [] = (key, v ∷ []) ∷ []
put_value key v ((k, vs) ∷ rest) =
    if k == key then (k, vs ++ v ∷ []) ∷ rest else (k, vs) ∷ put_value key v rest

-- The loop over the samples, for the keys of one map.
unfoldable pub group_values :
    (Sample → String) → List Sample → List (String × List ℤ) → List (String × List ℤ)
unfolding put_value
group_values key [] groups = groups
group_values key (s ∷ ss) groups =
    group_values key ss
      (if is_empty (key s) then groups else put_value (key s) s.lead_seconds groups)

pub record SummaryRow : Type 0 where
  pub name : String
  pub stats : Option LeadTimeSummary

abbrev row_of : String × List ℤ → SummaryRow
row_of (name, values) = record { name = name; stats = summarize_lead_times values }

abbrev pub name_le : SummaryRow → SummaryRow → Bool
name_le a b = text_le a.name b.name

unfoldable pub summary_rows : (Sample → String) → List Sample → List SummaryRow
unfolding group_values
summary_rows key samples = sort_by name_le (map row_of (group_values key samples []))

pub record LeadTimeReport : Type 0 where
  pub overall : Option LeadTimeSummary
  pub by_service : List SummaryRow
  pub by_day : List SummaryRow

unfoldable pub report_of : List Sample → LeadTimeReport
unfolding summary_rows
report_of samples = record {
  overall = summarize_lead_times (map (λ s. s.lead_seconds) samples);
  by_service = summary_rows (λ s. s.service_name) samples;
  by_day = summary_rows (λ s. s.day_utc) samples;
}

-- The window in days: thirty for none, and a year at most.
unfoldable pub clamp_days : ℤ → ℕ
clamp_days (pos zero) = 30
clamp_days (pos (suc n)) = if ltb 365 (suc n) then 365 else suc n
clamp_days (negsuc n) = 30

-- The samples come from the projections: the first argument lists those of an organization within a
-- number of days.
unfoldable pub build_lead_time_report :
    (ℤ → ℕ → Exec World (List Sample)) → ℤ → ℤ → Exec World LeadTimeReport
unfolding report_of clamp_days
build_lead_time_report list_samples org days = do
  samples ← list_samples org (clamp_days days)
  pure (report_of samples)
