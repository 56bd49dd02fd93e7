-- ===== src/Base/Text.antt =====
-- Texts: f-strings, slices from the start, and names in any case.
use Prim.Native.Char.{code}
use Prim.Native.Nat.{ℕ, zero, suc, ◌+◌}
use Prim.Native.String.{String, ◌++◌}
use mathlib.Core.Bool.{Bool, true, false, ◌&&◌}
use mathlib.Core.List.{List, [], ◌∷◌}
use vix_75_platform.Base.Tests.{leb, ◌==◌, if◌then◌else◌}

-- The concatenation of the parts of an f-string.
unfoldable pub format : List String → String
format [] = ""
format (s ∷ parts) = s ++ format parts

-- `s[:n]`
unfoldable pub cut : ℕ → String → String
cut zero s = ""
cut (suc n) String.[] = ""
cut (suc n) (String.◌∷◌ c s) = String.◌∷◌ c (cut n s)

abbrev lower : ℕ → ℕ
lower c = if leb 65 c && leb c 90 then c + 32 else c

-- `a.lower() == b.lower()`, of ASCII texts
unfoldable pub same_name : String → String → Bool
same_name String.[] String.[] = true
same_name String.[] (String.◌∷◌ _ _) = false
same_name (String.◌∷◌ _ _) String.[] = false
same_name (String.◌∷◌ a s) (String.◌∷◌ b t) = lower (code a) == lower (code b) && same_name s t
