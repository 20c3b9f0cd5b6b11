-- ===== src/Prelude/Strings.antt =====
-- Lists of texts as sets, and the parts of Go's `strings` package that the program uses.

use Prim.Native.String.{String}
use Prim.Native.String.{◌++◌ as string_append}
use Prim.Native.Char.{Char, code}
use mathlib.Core.Path.{◌≡◌, refl}
use mathlib.Core.Bool.{Bool, true, false, ◌||◌, ◌&&◌}
use mathlib.Core.List.{List, [], ◌∷◌, ◌++◌}
use native.Mathlib.Omega.{arith}
use nox_yard.Prelude.Tests.{◌=ₛ◌, ◌==◌, leb, if◌then◌else◌, is_some}
use mathlib.Core.Option.{Option, none, some}
use Prim.Native.Nat.{ℕ, zero, suc}

-- Membership of a text in a list, as a test.
abbrev pub mem : String → List String → Bool
mem r [] = false
mem r (x ∷ xs) = x =ₛ r || mem r xs

pub mem-append : (r : String) (xs ys : List String) → mem r (xs ++ ys) ≡ (mem r xs || mem r ys)
mem-append r [] ys = refl
mem-append r (x ∷ xs) ys = ground (arith, mem-append r xs ys)

-- Concatenation of texts, Go's `+` on strings.
infixr 60 ◌++ₛ◌
abbrev pub ◌++ₛ◌ : String → String → String
s ++ₛ t = string_append s t

-- strings.CutPrefix: what follows the prefix, if the text has it.
abbrev pub cut_prefix : String → String → Option String
cut_prefix s String.[] = some s
cut_prefix String.[] (String.◌∷◌ c p) = none
cut_prefix (String.◌∷◌ d s) (String.◌∷◌ c p) =
    let rest = cut_prefix s p in if code c == code d then rest else none

abbrev pub has_prefix : String → String → Bool
has_prefix s p = is_some (cut_prefix s p)

abbrev pub or_else : Option String → String → String
or_else none s = s
or_else (some t) s = t

-- strings.TrimPrefix
abbrev pub trim_prefix : String → String → String
trim_prefix s p = or_else (cut_prefix s p) s

-- strings.Split at a character, given by its number.
abbrev pub prepend : Char → List String → List String
prepend c [] = String.◌∷◌ c String.[] ∷ []
prepend c (w ∷ ws) = String.◌∷◌ c w ∷ ws

abbrev pub split : ℕ → String → List String
split separator String.[] = "" ∷ []
split separator (String.◌∷◌ c s) =
    let rest = split separator s in if code c == separator then "" ∷ rest else prepend c rest

-- A slice `s[:n]` of a text of one-byte characters.
abbrev pub take_text : ℕ → String → String
take_text zero s = ""
take_text (suc n) String.[] = ""
take_text (suc n) (String.◌∷◌ c s) = String.◌∷◌ c (take_text n s)

-- A Go map from texts to texts, whose reads of a missing key give the empty text.
abbrev pub Labels : Type 0
Labels = List (String × String)

abbrev pub label : String → Labels → String
label key [] = ""
label key ((k, v) ∷ rest) = let others = label key rest in if k =ₛ key then v else others

-- The numbers of the separators.
abbrev pub comma : ℕ
comma = 44

abbrev pub colon : ℕ
colon = 58

-- strings.Contains
abbrev pub contains : String → String → Bool
contains String.[] t = has_prefix "" t
contains (String.◌∷◌ c s) t = let rest = contains s t in has_prefix (String.◌∷◌ c s) t || rest

-- Whether every character is a digit of lower-case hexadecimal.
abbrev pub is_hex : String → Bool
is_hex String.[] = true
is_hex (String.◌∷◌ c s) =
    let rest = is_hex s in
    ((leb 48 (code c) && leb (code c) 57) || (leb 97 (code c) && leb (code c) 102)) && rest
