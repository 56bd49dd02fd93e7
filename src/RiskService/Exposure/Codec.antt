-- ===== src/RiskService/Exposure/Codec.antt =====
-- The JSON form of an open position in services/risk-service/app/exposure.py.
use vix_75_platform.Base.{◌≡◌, refl}
use vix_75_platform.Base.Dict.{text_eq}
use vix_75_platform.Base.Result.{ok}
use vix_75_platform.Float.{Float}
use vix_75_platform.Json.{JsonLib, ReadsBack}
use vix_75_platform.Schemas.{Direction, buy, sell, show_direction}
use vix_75_platform.RiskService.Exposure.{
  OpenPosition, parse_direction, position_fields, position_of, to_json, from_json,
}

parse-show_direction : (x : Direction) → parse_direction (show_direction x) ≡ ok x
unfolding parse_direction text_eq
parse-show_direction buy = refl
parse-show_direction sell = refl

module _ {F : Type 0} ⦃d : Float F⦄ ⦃j : JsonLib F⦄ where
  position_of-fields : (p : OpenPosition F) → position_of (position_fields p) ≡ ok p
  unfolding text_eq
  position_of-fields p = rw (parse-show_direction p.direction)

  -- If the JSON library reads back the document that it wrote for a position, `from_json` returns
  -- the position that `to_json` was given.
  pub from_json-to_json :
      (p : OpenPosition F) → ReadsBack (position_fields p) → from_json (to_json p) ≡ ok p
  unfolding from_json to_json
  from_json-to_json p back = rw back (position_of-fields p)
