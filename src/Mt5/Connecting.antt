-- ===== src/Mt5/Connecting.antt =====
-- How often `connect` of packages/vix_core/vix_core/mt5_client.py tries, and how long it waits.
use vix_75_platform.Base.{ℕ, zero, suc, ◌<◌, ◌≡◌, Bool, true, List, [], ◌∷◌, ◌++◌}
use vix_75_platform.Base.Result.{Result, ok, raise}
use vix_75_platform.Float.{Float}
use vix_75_platform.Mt5.{Mt5Client}

module _ {F : Type 0} ⦃d : Float F⦄ where
  -- The first pauses from a delay that doubles.
  abbrev pub doubling : ℕ → F → List F
  doubling zero delay = []
  doubling (suc n) delay = delay ∷ doubling n (d.mul delay (d.lit 2 0))

module _ {F T : Type 0} ⦃d : Float F⦄ where
  -- Connected before the last round was spent, or every round was spent in vain.
  abbrev pub Ended : ℕ → F → Mt5Client F T → Result Bool × Mt5Client F T → Type 0
  Ended rounds delay s (ok b, s') =
      (b ≡ true)
      × (s'.connected ≡ true)
      × ((n : ℕ) × (n < rounds) × (s'.sleeps ≡ s.sleeps ++ doubling n delay))
  Ended rounds delay s (raise e, s') =
      (s'.connected ≡ s.connected) × (s'.sleeps ≡ s.sleeps ++ doubling rounds delay)
