-- ===== src/Tests/SizingTests.antt =====
-- Position sizing: an account of 1000 that risks 1 percent with the stop 10 away.
use vix_75_platform.Base.{◌<◌, ◌≡◌, refl, false, some, arith}
use vix_75_platform.Base.Int.{ℤ, pos, negsuc, pos_part}
use vix_75_platform.Base.Result.{ok}
use vix_75_platform.Float.{◌≼◌, ◌≺◌}
use vix_75_platform.Sizing.{
  SymbolConstraints, SizingInput, LotSizingResult, reject_margin, capped_by_volume_max,
  compute_lots, floor_to_step, validate_stop_distances, shrink, check_margin, clamp_lots,
  margin_verdict, loss_per_lot, risk_budget, grid, overflows,
}
use vix_75_platform.Sizing.Margin.{StepsDown, smaller_size}
use vix_75_platform.Sizing.Bounds.{IsWithin, compute_lots_bounds}
use vix_75_platform.Sizing.Outcomes.{IsSizable, compute_lots_total}
use vix_75_platform.Tests.Decimal.{decimal, decimal-IsOrdered}

abbrev pub spec : SymbolConstraints ℤ
spec = record {
  volume_min = pos 1;
  volume_max = pos 80;
  volume_step = pos 1;
  tick_size = pos 1;
  tick_value = pos 1;
  point = pos 1;
  stops_level_points = pos 100;
  margin_per_lot = pos 10000;
}

-- 1.00 lots by risk, 0.80 by the broker's cap, 0.50 by a free margin of 100 used to the half.
abbrev trade : SizingInput ℤ
trade = record {
  equity = pos 100000;
  risk_pct = pos 100;
  entry = pos 50000;
  stop_loss = pos 49000;
  take_profit = pos 52000;
  constraints = spec;
  free_margin = some (pos 10000);
  margin_buffer = pos 50;
}

runs :
    compute_lots 100 trade
    ≡ ok (record {
      status = capped_by_volume_max;
      lots = pos 50;
      reason = "sized";
      risk_amount = pos 1000;
    })
unfolding compute_lots floor_to_step validate_stop_distances shrink check_margin clamp_lots
    margin_verdict loss_per_lot risk_budget grid
runs = refl

pub smaller_size_lem :
    (x : ℤ) → pos 1 ≺ x → (smaller_size spec x ≼ x) × (pos_part (smaller_size spec x) < pos_part x)
unfolding grid
smaller_size_lem (pos n) h = ground arith
smaller_size_lem (negsuc n) h = ground arith

pub spec-finite :
    (x : ℤ) → pos 1 ≺ x → x ≼ pos 80 → overflows (decimal.sub x (pos 1)) (pos 1) ≡ false
spec-finite (pos n) h k = ground arith
spec-finite (negsuc n) h k = ground arith

abbrev pub spec-StepsDown : StepsDown spec
spec-StepsDown = record {
  step_pos = refl;
  rank = pos_part;
  finite = spec-finite;
  smaller = λ x h _. (smaller_size_lem x h).0;
  rank_falls = λ x h _. (smaller_size_lem x h).1;
}

compute_lots_bounds_example : IsWithin trade (pos 80) (some (pos 10000)) (pos 50)
unfolding compute_lots floor_to_step validate_stop_distances shrink check_margin clamp_lots
    margin_verdict loss_per_lot risk_budget grid
compute_lots_bounds_example =
    compute_lots_bounds decimal-IsOrdered trade spec-StepsDown 100 refl refl refl

-- The same trade with hardly any free margin.
abbrev poor : SizingInput ℤ
poor = record trade { free_margin = some (pos 10) }

abbrev refused : LotSizingResult ℤ
refused = record {
  status = reject_margin;
  lots = pos 0;
  reason = "margin  exceeds usable free margin ";
  risk_amount = pos 1000;
}

compute_lots_total_example : (r : LotSizingResult ℤ) × (compute_lots 101 trade ≡ ok r)
unfolding loss_per_lot risk_budget grid
compute_lots_total_example =
    compute_lots_total decimal-IsOrdered trade spec-StepsDown 101 refl (omega arith) (omega arith)

-- A symbol whose volume step came as zero.
abbrev stepless : SizingInput ℤ
stepless = record trade { constraints = record spec { volume_step = pos 0 } }

stepless-IsSizable : IsSizable stepless
unfolding validate_stop_distances loss_per_lot
stepless-IsSizable = record {
  equity_pos = refl;
  risk_pos = refl;
  tick_size_pos = refl;
  tick_value_pos = refl;
  entry_pos = refl;
  stop_pos = refl;
  stops = refl;
  loss_pos = refl;
}
