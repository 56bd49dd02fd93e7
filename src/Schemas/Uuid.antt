-- ===== src/Schemas/Uuid.antt =====
-- `uuid_from_hex` of packages/vix_core/vix_core/schemas.py.
use Prim.Native.Char.{Char, code}
use vix_75_platform.Base.{
  ℕ, zero, suc, String, Bool, not, ◌&&◌, ◌||◌, List, [], ◌∷◌, ◌++◌, ◌==◌, leb, if◌then◌else◌,
  length, filter, any,
}
use vix_75_platform.Base.Result.{Result, ok, raise, value_error}

abbrev pub chars : String → List Char
chars String.[] = []
chars (String.◌∷◌ c s) = c ∷ chars s

abbrev pub text_of : List Char → String
text_of [] = ""
text_of (c ∷ cs) = String.◌∷◌ c (text_of cs)

abbrev pub take {ℓ} : {A : Type ℓ} → ℕ → List A → List A
take zero xs = []
take (suc n) [] = []
take (suc n) (x ∷ xs) = x ∷ take n xs

abbrev pub drop {ℓ} : {A : Type ℓ} → ℕ → List A → List A
drop zero xs = xs
drop (suc n) [] = []
drop (suc n) (x ∷ xs) = drop n xs

abbrev between : ℕ → ℕ → ℕ → Bool
between lo hi c = leb lo c && leb c hi

-- `c in "0123456789abcdefABCDEF"`
abbrev pub is_hex : Char → Bool
is_hex c = between b'0' b'9' (code c) || (between b'a' b'f' (code c) || between b'A' b'F' (code c))

-- `signal_id.replace("-", "")`
abbrev pub without_dashes : List Char → List Char
without_dashes = filter (λ c. not (code c == b'-'))

abbrev pub dash : List Char
dash = chars "-"

unfoldable pub uuid_from_hex : String → Result String
uuid_from_hex signal_id =
    let h = without_dashes (chars signal_id) in
    if not (length h == 32) || any (λ c. not (is_hex c)) h
    then raise (value_error "signal id must be 32 hex chars")
    else ok (
        text_of (
          take 8 h
          ++ (dash
              ++ (take 4 (drop 8 h)
                  ++ (dash
                      ++ (take 4 (drop 12 h)
                          ++ (dash ++ (take 4 (drop 16 h) ++ (dash ++ drop 20 h)))))))))
