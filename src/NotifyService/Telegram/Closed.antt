-- ===== src/NotifyService/Telegram/Closed.antt =====
-- The text of a closed trade that services/notify-service/app/consumer.py passes on.
use vix_75_platform.Base.{◌≡◌, refl, ap, String, some, [], ◌∷◌, arith, format, inl, inr, Bool-cases}
use vix_75_platform.Base.Dict.{Dict, lookup, text_eq}
use vix_75_platform.Float.{Float, nought}
use vix_75_platform.Json.{JsonValue, text}
use vix_75_platform.NotifyService.Telegram.{arrow, texts, format_closed, closed_parts, get_or}

some_inj {ℓ} : {A : Type ℓ} {a b : A} → some a ≡ some b → a ≡ b
some_inj h = cc

lookup-texts :
    {F : Type 0} (k s : String) (fields : Dict String)
    → lookup k fields ≡ some s
    → lookup {V = JsonValue F} k (texts fields) ≡ some (text s)
lookup-texts k s [] h = ground arith
lookup-texts k s ((i, v) ∷ fields) h = elim (Bool-cases (text_eq i k)) [
  | inl e ↦ rw e (ap (λ x. some (text x)) (some_inj (rw e at h)))
  | inr e ↦ rw e (lookup-texts k s fields (rw e at h))
]

module _ {F : Type 0} ⦃d : Float F⦄ (payload : Dict (JsonValue F)) (pnl : String) where
  arrow-text : lookup "pnl" payload ≡ some (text pnl) → arrow payload ≡ "📉"
  unfolding arrow
  arrow-text h = rw (h, arrow) refl

  get_or-text :
      (default : String)
      → lookup "pnl" payload ≡ some (text pnl)
      → get_or default "pnl" payload ≡ pnl
  get_or-text default h = rw (h, get_or) refl

-- If the fields of a message have a text for the profit, the text of the closed trade has that
-- profit and the arrow of a loss.
pub format_closed-texts :
    (F : Type 0) ⦃d : Float F⦄ (pnl : String) (fields : Dict String)
    → lookup "pnl" fields ≡ some pnl
    → format_closed {F = F} (texts fields)
      ≡ format
          ("🔵 <b>TRADE CLOSED</b> " ∷ "📉" ∷ "\nPnL: " ∷ pnl ∷ closed_parts {F = F} (texts fields))
unfolding format_closed
format_closed-texts F ⦃d⦄ pnl fields h =
    let e = lookup-texts {F = F} "pnl" pnl fields h in
    ap
      (λ (x : String × String).
        format
          ("🔵 <b>TRADE CLOSED</b> " ∷ x.0 ∷ "\nPnL: " ∷ x.1 ∷ closed_parts {F = F} (texts fields)))
      (λ i. (arrow-text (texts fields) pnl e i, get_or-text (texts fields) pnl (d.show nought) e i))
