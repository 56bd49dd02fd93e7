-- ===== src/Tests/SignalTests.antt =====
-- A demand zone from 480 to 500 through its life, and the signal that it gives.
use vix_75_platform.Base.{◌+◌, ℕ, ◌≡◌, ◌↔◌, refl, true, false, none, some, List, [], ◌∷◌}
use vix_75_platform.Base.Dict.{text_eq}
use vix_75_platform.Base.Int.{ℤ, pos}
use vix_75_platform.Schemas.{Bar, Zone, demand, fresh, broken, buy, s1_trend_up, Signal}
use vix_75_platform.Zones.{ZoneEngineConfig, update}
use vix_75_platform.Zones.Lifecycle.{after_bars, IsLater, after_bars-IsLater}
use vix_75_platform.Scoring.{ConfluenceInputs, ConfluenceResult, calculate_score, score_of}
use vix_75_platform.Float.{◌≼◌}
use vix_75_platform.Scoring.Gates.{IsInZone, RegimeAllows, IsLikely, extras, calculate_score_passed}
use vix_75_platform.SignalService.Engine.{
  LtfSnapshot, MarketContext, SignalEngine, evaluate, judge, conclude, build_signal, resolve_regime,
}
use vix_75_platform.SignalService.Engine.Fires.{Fires, evaluate-Fires}
use vix_75_platform.SignalService.Engine.Stops.{HasStop, evaluate-HasStop}
use vix_75_platform.Tests.Decimal.{decimal, decimal-IsOrdered}

abbrev cfg : ZoneEngineConfig ℤ
cfg = record {
  impulse_body_atr_mult = pos 120;
  max_base_candles = 4;
  mitigation_level = pos 75;
  break_buffer_atr = pos 25;
  expiry_bars = 500;
  max_zones = 12;
  atr_period = 14;
}

abbrev zone : Zone ℤ
zone = record {
  id = "z";
  kind = demand;
  top = pos 50000;
  bottom = pos 48000;
  created_ts = 0;
  state = fresh;
  touches = 0;
  score = 1;
}

abbrev bar : ℕ → ℕ → ℕ → Bar ℤ
bar high low close = record {
  ts = 0;
  open_price = pos high;
  high = pos high;
  low = pos low;
  close = pos close;
  tick_volume = 1;
}

-- A touch at the top of the zone, and a close far below it.
abbrev bars : List (Bar ℤ × ℤ)
bars = (bar 51000 49900 50500, pos 1000) ∷ (bar 50000 40000 41000, pos 1000) ∷ []

broken_after_bars : (after_bars cfg zone bars).state ≡ broken
unfolding update
broken_after_bars = refl

after_bars-IsLater_example : IsLater cfg 2 zone (after_bars cfg zone bars)
after_bars-IsLater_example = after_bars-IsLater cfg zone bars

abbrev inputs : ConfluenceInputs ℤ
inputs = record {
  direction = buy;
  htf_trend = "up";
  regime = s1_trend_up;
  zone_kind_touched = some demand;
  bbma_confirms = false;
  rsi_divergence = false;
  p_win = some (pos 60);
  allow_s0_fade = false;
}

-- The score is 5, without the BBMA confirmation and without an RSI divergence.
abbrev scored : ConfluenceResult
scored = calculate_score (pos 450) (pos 55) inputs

passes : scored.passed ≡ true
unfolding calculate_score score_of text_eq
passes = refl

calculate_score_passed_example : (scored.passed ≡ true) ↔ (
    IsInZone inputs
    × RegimeAllows inputs
    × IsLikely (pos 55) inputs.p_win
    × (pos 450 ≼ decimal.of_int (pos (4 + extras inputs))))
calculate_score_passed_example = calculate_score_passed decimal-IsOrdered (pos 450) (pos 55) inputs

abbrev engine : SignalEngine ℤ
engine = record {
  min_confluence = pos 450;
  min_p_win = pos 55;
  allow_s0_fade = false;
  sl_atr_buffer = pos 50;
  rr_tp_1 = pos 200;
  rr_tp_2 = pos 300;
}

-- A broken zone that holds the close stands before the fresh one.
abbrev ltf : LtfSnapshot ℤ
ltf = record {
  symbol = "V75";
  timeframe = "M5";
  ts = 0;
  close = pos 49000;
  atr = pos 1000;
  rsi = pos 5000;
  ema50 = pos 48500;
  ema200 = pos 48000;
  zones = record zone { state = broken; bottom = pos 30000 } ∷ zone ∷ [];
}

abbrev market : MarketContext ℤ
market = record {
  htf_trend = "up";
  regime = "S1_trend_up";
  p_win = some (pos 60);
  rsi_divergence = none;
}

abbrev fired : Signal ℤ
fired = build_signal engine "s" ltf buy demand 6 (record {
  htf_trend_aligned = true;
  zone_touch = true;
  bbma_confirm = true;
  rsi_divergence = false;
  regime_ok = true;
  meta_label_ok = true;
})

fires : (evaluate (λ s. s) engine "s" ltf market).signal ≡ some fired
unfolding evaluate judge conclude resolve_regime calculate_score score_of text_eq
fires = refl

-- The stop is beyond the edge of the broken zone, at 300 less half the ATR.
stop_of_broken_zone : fired.sl ≡ pos 29500
unfolding build_signal
stop_of_broken_zone = refl

evaluate-Fires_example : Fires engine ltf market fired
evaluate-Fires_example = evaluate-Fires decimal-IsOrdered (λ s. s) engine "s" ltf market fired fires

evaluate-HasStop_example : HasStop engine ltf fired
evaluate-HasStop_example =
    evaluate-HasStop decimal-IsOrdered engine "s" ltf (λ s. s) market fired fires
