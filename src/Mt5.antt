-- ===== src/Mt5.antt =====
-- packages/vix_core/vix_core/mt5_client.py: the connection to the terminal with its retries. The MT5 package is an interface over a terminal state `T`.
pub mod Reading
pub mod Connecting
use vix_75_platform.Base.{
  ℕ, zero, suc, ◌+◌, ◌≡◌, String, Bool, true, false, not, ◌&&◌, ◌||◌, Option, none, some, List, [],
  ◌∷◌, ◌++◌, ◌==◌, format, if◌then◌else◌,
}
use vix_75_platform.Base.Dict.{text_eq}
use vix_75_platform.Base.Int.{ℤ, pos}
use vix_75_platform.Base.Result.{Result, ok, raise, value_error, runtime_error, ◌>>=◌}
use vix_75_platform.Float.{Float, nought}
use vix_75_platform.Schemas.{Timestamp}
use vix_75_platform.Execution.Executor.{Tick}

-- A row of `copy_rates_*`.
pub record Rate (F : Type 0) : Type 0 where
  pub time : Timestamp
  pub open_price : F
  pub high : F
  pub low : F
  pub close : F
  pub tick_volume : ℕ

pub record SymbolInfo (F : Type 0) : Type 0 where
  pub digits : ℕ
  pub point : F
  pub trade_tick_size : F
  pub trade_tick_value : F
  pub volume_min : F
  pub volume_max : F
  pub volume_step : F
  pub trade_stops_level : ℤ

pub record Mt5Package (F T : Type 0) : Type 0 where
  pub initialize : Option String → T → Bool × T
  pub login : ℕ → String → String → T → Bool × T
  pub shutdown : T → T
  pub last_error : T → String
  -- By symbol, constant of the timeframe, start and count.
  pub copy_rates_from_pos : String → ℕ → ℕ → ℕ → T → Option (List (Rate F))
  pub symbol_info : String → T → Option (SymbolInfo F)
  pub symbol_info_tick : String → T → Option (Tick F)
  pub has_account : T → Bool
  pub order_calc_margin : String → F → F → T → Option F

pub record Mt5Settings : Type 0 where
  pub mt5_terminal_path : Option String
  pub mt5_login : ℕ
  pub mt5_password : String
  pub mt5_server : String

-- The client, the terminal of the package where it is installed, and the pauses so far.
pub record Mt5Client (F T : Type 0) : Type 0 where
  pub settings : Mt5Settings
  pub terminal : Option T
  pub connected : Bool
  pub sleeps : List F

abbrev pub unavailable : String
unavailable =
    "MetaTrader5 package not installed on this platform. Install vix-core[mt5] on the Windows bridge host."

-- `if path:` keeps the path only if it is not empty.
abbrev pub path_of : Option String → Option String
path_of none = none
path_of (some path) = if text_eq path "" then none else some path

-- `require_mt5`
abbrev pub require_mt5 {ℓ} : {T : Type ℓ} → Option T → Result T
require_mt5 none = raise (runtime_error unavailable)
require_mt5 (some t) = ok t

-- Whether a round connected, the error that it left else, and the terminal.
abbrev pub sign_in :
    (F : Type 0) {T : Type 0} ⦃m : Mt5Package F T⦄ → Mt5Settings → T → Option String × T
sign_in F ⦃m⦄ settings t =
    let (authorised, t') = m.login settings.mt5_login settings.mt5_password settings.mt5_server t in
    if settings.mt5_login == 0 || text_eq settings.mt5_password ""
    then (none, t)
    else if authorised
    then (none, t')
    else (some (format ("login failed: " ∷ m.last_error t' ∷ [])), m.shutdown t')

abbrev pub try_once :
    (F : Type 0) {T : Type 0} ⦃m : Mt5Package F T⦄ → Mt5Settings → T → Option String × T
try_once F ⦃m⦄ settings t =
    let (initialised, t') = m.initialize (path_of settings.mt5_terminal_path) t in
    if initialised then sign_in F settings t' else (some (m.last_error t'), t')

module _ {F T : Type 0} ⦃d : Float F⦄ ⦃m : Mt5Package F T⦄ where
  -- The rounds that are left of `for attempt in range(1, retries + 1)`.
  unfoldable pub attempt_connect :
      (retries left : ℕ) (delay : F) (last_error : String)
      → T
      → Mt5Client F T
      → Result Bool × Mt5Client F T
  attempt_connect retries zero delay last_error t s = (
    raise (
        runtime_error (
          format (
            "could not connect after "
            ∷ d.show_int (pos retries)
            ∷ " attempts: "
            ∷ last_error
            ∷ []))),
    record s { terminal = some t },
  )
  attempt_connect retries (suc left) delay last_error t s =
      let tried = try_once F s.settings t in
      elim tried.0 [
        | none ↦ (ok true, record s { terminal = some tried.1; connected = true })
        | some error ↦
            attempt_connect retries left (d.mul delay (d.lit 2 0)) error tried.1
              (record s { sleeps = s.sleeps ++ (delay ∷ []) })
      ]

  unfoldable pub connect :
      (retries : ℕ) (initial_delay_s : F) → Mt5Client F T → Result Bool × Mt5Client F T
  connect retries initial_delay_s s = elim (require_mt5 s.terminal) [
    | raise e ↦ (raise e, s)
    | ok t ↦ attempt_connect retries retries initial_delay_s "None" t s
  ]

  unfoldable pub shutdown : Mt5Client F T → Mt5Client F T
  shutdown s = elim s.terminal [
    | none ↦ s
    | some t ↦
        if s.connected then record s { terminal = some (m.shutdown t); connected = false } else s
  ]
