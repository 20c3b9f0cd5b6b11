-- ===== src/Inventory/Logs/Utf8.antt =====
-- unicode/utf8: Valid, which inventory/logs.go calls, as an automaton over the bytes.
use nox_yard.Prelude.{
  ltb, leb, ◌==◌, if◌then◌else◌, ℕ, ◌-◌, Bool, false, ◌&&◌, Option, none, some, List, [], ◌∷◌,
}

-- How many bytes of a rune are to come, and the range of the next one.
pub record Awaited : Type 0 where
  pub count : ℕ
  pub low : ℕ
  pub high : ℕ

abbrev between_runes : Awaited
between_runes = record { count = 0; low = 0x80; high = 0xbf }

abbrev awaiting : ℕ → ℕ → ℕ → Option Awaited
awaiting n low high = some (record { count = n; low = low; high = high })

abbrev is_in : ℕ → ℕ → ℕ → Bool
is_in low high b = leb low b && leb b high

-- The first byte of a rune.
unfoldable pub rune_start : ℕ → Option Awaited
rune_start b =
    if ltb b 0x80
    then some between_runes
    else if is_in 0xc2 0xdf b
    then awaiting 1 0x80 0xbf
    else if b == 0xe0
    then awaiting 2 0xa0 0xbf
    else if b == 0xed
    then awaiting 2 0x80 0x9f
    else if is_in 0xe1 0xef b
    then awaiting 2 0x80 0xbf
    else if b == 0xf0
    then awaiting 3 0x90 0xbf
    else if is_in 0xf1 0xf3 b
    then awaiting 3 0x80 0xbf
    else if b == 0xf4
    then awaiting 3 0x80 0x8f
    else none

unfoldable pub rune_step : Awaited → ℕ → Option Awaited
unfolding rune_start
rune_step a b =
    if a.count == 0
    then rune_start b
    else if is_in a.low a.high b
    then awaiting (a.count - 1) 0x80 0xbf
    else none

unfoldable pub valid_from : Option Awaited → List ℕ → Bool
unfolding rune_step
valid_from none s = false
valid_from (some a) [] = a.count == 0
valid_from (some a) (b ∷ s) = valid_from (rune_step a b) s

-- utf8.Valid
unfoldable pub valid_utf8 : List ℕ → Bool
unfolding valid_from
valid_utf8 s = valid_from (some between_runes) s
