-- ===== src/Base/Text.antt =====
-- Rust's `String` as the list of its code points. The order of code points is the order of the
-- UTF-8 bytes, so `Ord` on lists of numbers is `Ord` on `String`; a length in bytes is written out.
use Prim.Native.Char.{code}
use Prim.Native.String.{String}
use Prim.Native.Nat.{ℕ, zero, suc, ◌+◌, ◌/◌, ◌%◌}
use mathlib.Core.Bool.{Bool, true, false, ◌&&◌, ◌||◌}
use mathlib.Core.List.{List, [], ◌∷◌, ◌++◌, map, reverse}
use mathlib.Core.Option.{Option, none, some}
use repo_hyperindex.Base.Order.{Ord, nat_ord, list_ord}
use repo_hyperindex.Base.Tests.{ltb, leb, ◌==◌, if◌then◌else◌}

abbrev pub Text : Type 0
Text = List ℕ

instance abbrev pub text_ord : Ord Text
text_ord = list_ord

abbrev pub text : String → Text
text String.[] = []
text (String.◌∷◌ c s) = code c ∷ text s

-- `str::len`, in bytes of UTF-8
unfoldable pub char_len_utf8 : ℕ → ℕ
char_len_utf8 c =
    if ltb c 0x80 then 1 else if ltb c 0x800 then 2 else if ltb c 0x10000 then 3 else 4

unfoldable pub len_utf8 : Text → ℕ
unfolding char_len_utf8
len_utf8 [] = 0
len_utf8 (c ∷ cs) = char_len_utf8 c + len_utf8 cs

-- `str::as_bytes`
abbrev encode_utf8 : ℕ → List ℕ
encode_utf8 c =
    if ltb c 0x80
    then c ∷ []
    else if ltb c 0x800
    then (0xC0 + c / 0x40) ∷ (0x80 + c % 0x40) ∷ []
    else if ltb c 0x10000
    then (0xE0 + c / 0x1000) ∷ (0x80 + c / 0x40 % 0x40) ∷ (0x80 + c % 0x40) ∷ []
    else (0xF0 + c / 0x40000)
      ∷ (0x80 + c / 0x1000 % 0x40)
      ∷ (0x80 + c / 0x40 % 0x40)
      ∷ (0x80 + c % 0x40)
      ∷ []

unfoldable pub as_bytes : Text → List ℕ
as_bytes [] = []
as_bytes (c ∷ cs) = encode_utf8 c ++ as_bytes cs

-- `char::is_whitespace`
abbrev pub is_whitespace : ℕ → Bool
is_whitespace c =
    (leb 9 c && leb c 13)
    || c == 32
    || c == 0x85
    || c == 0xA0
    || c == 0x1680
    || (leb 0x2000 c && leb c 0x200A)
    || c == 0x2028
    || c == 0x2029
    || c == 0x202F
    || c == 0x205F
    || c == 0x3000

unfoldable pub trim_start : Text → Text
trim_start [] = []
trim_start (c ∷ cs) = let rest = trim_start cs in if is_whitespace c then rest else c ∷ cs

unfoldable pub trim : Text → Text
unfolding trim_start
trim t = reverse (trim_start (reverse (trim_start t)))

unfoldable pub strip_prefix : Text → Text → Option Text
strip_prefix [] t = some t
strip_prefix (p ∷ ps) [] = none
strip_prefix (p ∷ ps) (c ∷ cs) = let rest = strip_prefix ps cs in if p == c then rest else none

unfoldable pub starts_with : Text → Text → Bool
starts_with [] t = true
starts_with (p ∷ ps) [] = false
starts_with (p ∷ ps) (c ∷ cs) = p == c && starts_with ps cs

-- `str::contains`, of a text; the text it looks for comes first
unfoldable pub has_text : Text → Text → Bool
unfolding starts_with
has_text pattern [] = starts_with pattern []
has_text pattern (c ∷ cs) = starts_with pattern (c ∷ cs) || has_text pattern cs

-- `str::to_ascii_lowercase`
abbrev pub to_ascii_lowercase : Text → Text
to_ascii_lowercase t = map (λ c. if leb 65 c && leb c 90 then c + 32 else c) t

-- `str::ends_with`, over reversed texts
unfoldable pub ends_with : Text → Text → Bool
unfolding starts_with
ends_with suffix t = starts_with (reverse suffix) (reverse t)

-- `str::replace` of one character by another
abbrev pub replace_char : ℕ → ℕ → Text → Text
replace_char a b t = map (λ c. if c == a then b else c) t

-- `str::split` at a character, and `[_]::join`
abbrev pub cons_head : ℕ → List Text → List Text
cons_head c [] = (c ∷ []) ∷ []
cons_head c (w ∷ ws) = (c ∷ w) ∷ ws

unfoldable pub split : ℕ → Text → List Text
split sep [] = [] ∷ []
split sep (c ∷ cs) = let rest = split sep cs in if c == sep then [] ∷ rest else cons_head c rest

unfoldable pub join : Text → List Text → Text
join sep [] = []
join sep (w ∷ []) = w
join sep (w ∷ v ∷ ws) = w ++ (sep ++ join sep (v ∷ ws))

-- `{n}` and `{n:06}`: decimal digits, the least significant last. A number below 2^64 has at most
-- twenty.
unfoldable pub decimal_fuel : ℕ → ℕ → Text → Text
decimal_fuel zero n acc = acc
decimal_fuel (suc f) n acc =
    let digit = 48 + n % 10 in
    let rest = decimal_fuel f (n / 10) (digit ∷ acc) in if ltb n 10 then digit ∷ acc else rest

unfoldable pub decimal : ℕ → Text
unfolding decimal_fuel
decimal n = decimal_fuel 20 n []
