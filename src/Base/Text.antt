-- ===== src/Base/Text.antt =====
-- C strings: the code points of a literal, and the comparisons of the C library.
use Prim.Native.Nat.{ℕ, zero, suc}
use Prim.Native.Char.{code}
use Prim.Native.String.{String}
use mathlib.Core.Bool.{Bool, true, false, ◌&&◌}
use mathlib.Core.Option.{Option, none, some}
use mathlib.Core.List.{List, [], ◌∷◌}
use pico_stairway_controller.Base.Tests.{◌==◌, if◌then◌else◌}

abbrev pub codes : String → List ℕ
codes String.[] = []
codes (String.◌∷◌ c s) = code c ∷ codes s

-- The characters of a char array before its terminating 0.
abbrev pub c_string : List ℕ → List ℕ
c_string [] = []
c_string (zero ∷ rest) = []
c_string (suc c ∷ rest) = suc c ∷ c_string rest

-- strcmp(a, b) == 0.
abbrev pub same_text : List ℕ → List ℕ → Bool
same_text [] [] = true
same_text (a ∷ xs) (b ∷ ys) = (a == b) && same_text xs ys
same_text _ _ = false

-- strncmp(str, prefix, length of the prefix) == 0.
unfoldable pub starts_with : List ℕ → List ℕ → Bool
starts_with [] str = true
starts_with (p ∷ ps) [] = false
starts_with (p ∷ ps) (c ∷ cs) = (p == c) && starts_with ps cs

-- strstr: from the first place on where the pattern stands.
unfoldable pub strstr : List ℕ → List ℕ → Option (List ℕ)
strstr [] pattern_ = if starts_with pattern_ [] then some [] else none
strstr (c ∷ cs) pattern_ =
    let more = strstr cs pattern_ in if starts_with pattern_ (c ∷ cs) then some (c ∷ cs) else more
