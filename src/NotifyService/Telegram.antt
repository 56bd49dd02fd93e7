-- ===== src/NotifyService/Telegram.antt =====
-- services/notify-service/app/telegram.py: the sender, and the texts of its messages. What the Telegram
-- server answers is an argument; `isdigit` is read on ASCII texts.
use Prim.Native.Char.{code}
pub mod Closed
use vix_75_platform.Base.{
  ℕ, ◌+◌, String, Bool, true, false, not, ◌&&◌, List, [], ◌∷◌, Option, none, some, ◌==◌, leb, all,
  cut, format, if◌then◌else◌,
}
use vix_75_platform.Base.Dict.{Dict, lookup, text_eq}
use vix_75_platform.Base.Int.{pos}
use vix_75_platform.Float.{Float, nought}
use vix_75_platform.Json.{JsonValue, null, bool, num, text, nums, str_of}
use vix_75_platform.Schemas.Uuid.{chars}

pub record TelegramSender : Type 0 where
  pub token : String
  pub chat_id : String
  pub sent : ℕ
  pub failed : ℕ

-- `"..." in s`
abbrev pub has_dots : String → Bool
has_dots (String.◌∷◌ a (String.◌∷◌ b (String.◌∷◌ c s))) =
    if code a == b'.' && (code b == b'.' && code c == b'.')
    then true
    else has_dots (String.◌∷◌ b (String.◌∷◌ c s))
has_dots _ = false

unfoldable pub is_digits : String → Bool
is_digits s = not (text_eq s "") && all (λ c. leb b'0' (code c) && leb (code c) b'9') (chars s)

unfoldable pub configured : TelegramSender → Bool
configured s = not (text_eq s.token "") && (not (has_dots s.token) && is_digits s.chat_id)

-- `send`, where `delivered` says whether the server took the message. The text itself changes nothing
-- here.
unfoldable pub send : Bool → String → TelegramSender → Bool × TelegramSender
send delivered message s =
    if not (configured s)
    then (false, s)
    else if delivered
    then (true, record s { sent = s.sent + 1 })
    else (false, record s { failed = s.failed + 1 })

-- One character of `html.escape`; `self` is the character as a text.
abbrev pub escape_char : ℕ → String → String
escape_char c self =
    if c == b'&'
    then "&amp;"
    else if c == b'<'
    then "&lt;"
    else if c == b'>'
    then "&gt;"
    else if c == b'"'
    then "&quot;"
    else if c == 39
    then "&#x27;"
    else self

-- `html.escape`
unfoldable pub escape : String → String
escape String.[] = ""
escape (String.◌∷◌ c s) =
    let rest = escape s in format (escape_char (code c) (String.◌∷◌ c "") ∷ rest ∷ [])

module _ {F : Type 0} where
  -- A payload of decoded fields.
  abbrev pub texts : Dict String → Dict (JsonValue F)
  texts [] = []
  texts ((k, s) ∷ fields) = (k, text s) ∷ texts fields

module _ {F : Type 0} ⦃d : Float F⦄ where
  -- `bool(v)`
  abbrev pub is_truthy : JsonValue F → Bool
  is_truthy null = false
  is_truthy (bool b) = b
  is_truthy (num x) = not (d.le x nought && d.le nought x)
  is_truthy (text s) = not (text_eq s "")
  is_truthy (nums []) = false
  is_truthy (nums (_ ∷ _)) = true

  -- `payload.get(k)` where it is true, and the next key else.
  abbrev pub truthy_get : String → Dict (JsonValue F) → JsonValue F → JsonValue F
  truthy_get k payload other = elim (lookup k payload) [
    | some v ↦ if is_truthy v then v else other
    | none ↦ other
  ]

  -- `str(payload.get(k, "—"))`, with a default of its own where there is one
  abbrev pub get_or : String → String → Dict (JsonValue F) → String
  get_or default k payload = elim (lookup k payload) [ some v ↦ str_of v | none ↦ default ]

  abbrev pub shown : String → Dict (JsonValue F) → String
  shown k payload = get_or "—" k payload

  -- `f"{float(p_win):.2f}"`, for numbers only
  abbrev pub show_p_win : Option (JsonValue F) → String
  show_p_win (some (num x)) = d.show_fixed 2 x
  show_p_win (some (bool b)) = d.show_fixed 2 (if b then d.lit 1 0 else nought)
  show_p_win _ = "—"

  unfoldable pub format_generated : Dict (JsonValue F) → String
  format_generated payload =
      let regime = truthy_get "regime" payload (truthy_get "regime_label" payload (text "—")) in
      let tf = truthy_get "timeframe" payload (truthy_get "ltf_timeframe" payload (text "—")) in
      format (
        "🟡 <b>SIGNAL GENERATED</b>\nSymbol: "
        ∷ escape (shown "symbol" payload)
        ∷ "\nDirection: "
        ∷ escape (shown "direction" payload)
        ∷ " | TF: "
        ∷ escape (str_of tf)
        ∷ "\nScore: "
        ∷ shown "score" payload
        ∷ "/"
        ∷ get_or (d.show_int (pos 7)) "max_score" payload
        ∷ "\nRegime: "
        ∷ escape (str_of regime)
        ∷ " | P(win): "
        ∷ show_p_win (lookup "p_win" payload)
        ∷ "\nEntry: "
        ∷ shown "entry" payload
        ∷ "\nSL: "
        ∷ shown "sl" payload
        ∷ " | TP1: "
        ∷ shown "tp1" payload
        ∷ " | TP2: "
        ∷ shown "tp2" payload
        ∷ [])

  unfoldable pub format_filled : Dict (JsonValue F) → String
  format_filled payload = format (
      "🟢 <b>ORDER FILLED</b>\nTicket #"
      ∷ shown "ticket" payload
      ∷ "\nSymbol: "
      ∷ escape (shown "symbol" payload)
      ∷ "\nDirection: "
      ∷ escape (shown "direction" payload)
      ∷ " | Lots: "
      ∷ shown "lots" payload
      ∷ "\nEntry: "
      ∷ str_of (truthy_get "fill_price" payload (truthy_get "entry" payload (text "—")))
      ∷ "\nSL: "
      ∷ shown "sl" payload
      ∷ " | TP: "
      ∷ shown "tp" payload
      ∷ [])

  unfoldable pub format_rejected : Dict (JsonValue F) → String
  format_rejected payload = format (
      "🔴 <b>ORDER REJECTED</b>\nReason: "
      ∷ escape (shown "rejected_reason" payload)
      ∷ "\nSymbol: "
      ∷ escape (shown "symbol" payload)
      ∷ "\nSignal: "
      ∷ escape (shown "signal_id" payload)
      ∷ "\nDetail: "
      ∷ escape (cut 200 (get_or "" "detail" payload))
      ∷ [])

  -- `isinstance(pnl, (int, float)) and pnl >= 0`
  abbrev pub gains : JsonValue F → Bool
  gains (num x) = d.le nought x
  gains (bool b) = true
  gains _ = false

  -- `pnl` is 0.0 where it is missing.
  pub arrow : Dict (JsonValue F) → String
  arrow payload = elim (lookup "pnl" payload) [
    | some pnl ↦ if gains pnl then "📈" else "📉"
    | none ↦ "📈"
  ]

  -- The message behind its profit.
  abbrev pub closed_parts : Dict (JsonValue F) → List String
  closed_parts payload =
      "\nTicket #"
      ∷ shown "ticket" payload
      ∷ " | Symbol: "
      ∷ escape (shown "symbol" payload)
      ∷ "\nExit: "
      ∷ shown "exit_price" payload
      ∷ []

  pub format_closed : Dict (JsonValue F) → String
  format_closed payload = format (
      "🔵 <b>TRADE CLOSED</b> "
      ∷ arrow payload
      ∷ "\nPnL: "
      ∷ get_or (d.show nought) "pnl" payload
      ∷ closed_parts payload)
