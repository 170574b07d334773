-- ===== src/Prelude/Text.antt =====
-- Text as its code points, where the program looks inside it.
use Prim.Native.Nat.{ℕ, zero, suc, ◌+◌, ◌-◌, ◌/◌, ◌%◌}
use Prim.Native.Char.{code}
use Prim.Native.String.{String, ◌++◌ as string_append}
use mathlib.Core.Bool.{Bool, true, false, ◌&&◌, ◌||◌}
use mathlib.Core.Option
use mathlib.Core.Option.{Option, none, some}
use mathlib.Core.List.{List, [], ◌∷◌, ◌++◌, reverse}
use native.Mathlib.Omega.{arith}
use mathlib.Core.Path.{◌≡◌, ◌∙◌, refl}
use phira_plus_backend.Prelude.Tests.{if◌then◌else◌, leb, ltb, nat_beq}
use phira_plus_backend.Prelude.Lists.{every, every-append, length}

abbrev pub codes : String → List ℕ
codes String.[] = []
codes (String.◌∷◌ c s) = code c ∷ codes s

-- The characters with the property White_Space, which `str::trim` strips.
abbrev pub is_whitespace : ℕ → Bool
is_whitespace c =
    (leb 0x9 c && leb c 0xd)
    || (nat_beq c 0x20
        || (nat_beq c 0x85
            || (nat_beq c 0xa0
                || (nat_beq c 0x1680
                    || ((leb 0x2000 c && leb c 0x200a)
                        || (nat_beq c 0x2028
                            || (nat_beq c 0x2029
                                || (nat_beq c 0x202f
                                    || (nat_beq c 0x205f || nat_beq c 0x3000)))))))))

abbrev pub trim_start : List ℕ → List ℕ
trim_start [] = []
trim_start (c ∷ s) = let rest = trim_start s in if is_whitespace c then rest else c ∷ s

-- `str::trim`.
abbrev pub trim : List ℕ → List ℕ
trim s = reverse (trim_start (reverse (trim_start s)))

abbrev pub is_empty {ℓ} : {A : Type ℓ} → List A → Bool
is_empty [] = true
is_empty (c ∷ s) = false

-- `s.split(c).count()`: one more than the separators.
abbrev pub split_count : ℕ → List ℕ → ℕ
split_count c [] = 1
split_count c (d ∷ s) =
    let rest = split_count c s in if nat_beq c d then Prim.Native.Nat.suc rest else rest

-- `char::encode_utf8`, of the code point, with its masks.
abbrev pub char_bytes : ℕ → List ℕ
char_bytes c =
    if leb c 0x7f
    then c ∷ []
    else if leb c 0x7ff
    then (0xc0 + c / 64 % 32) ∷ (0x80 + c % 64) ∷ []
    else if leb c 0xffff
    then (0xe0 + c / 4096 % 16) ∷ (0x80 + c / 64 % 64) ∷ (0x80 + c % 64) ∷ []
    else (0xf0 + c / 262144 % 8)
      ∷ (0x80 + c / 4096 % 64)
      ∷ (0x80 + c / 64 % 64)
      ∷ (0x80 + c % 64)
      ∷ []

-- The bytes of a text.
unfoldable pub utf8 : List ℕ → List ℕ
utf8 [] = []
utf8 (c ∷ s) = char_bytes c ++ utf8 s

abbrev pub is_byte : ℕ → Bool
is_byte b = ltb b 256

pub every_byte-utf8 : (s : List ℕ) → every is_byte (utf8 s) ≡ true
unfolding utf8
every_byte-utf8 [] = refl
every_byte-utf8 (c ∷ s) =
    every-append is_byte (char_bytes c) (utf8 s) ∙ ground (arith, every_byte-utf8 s)

-- `str::strip_prefix`.
unfoldable pub strip_prefix : String → String → Option String
strip_prefix String.[] s = some s
strip_prefix (String.◌∷◌ c p) String.[] = none
strip_prefix (String.◌∷◌ c p) (String.◌∷◌ d s) =
    let rest = strip_prefix p s in if nat_beq (code c) (code d) then rest else none

-- `str::replace`; the first argument is how much of an occurrence is left to skip.
unfoldable pub replace_from : ℕ → String → String → String → String
unfolding strip_prefix
replace_from skip pattern by String.[] = String.[]
replace_from (suc skip) pattern by (String.◌∷◌ c s) = replace_from skip pattern by s
replace_from zero pattern by (String.◌∷◌ c s) = elim (strip_prefix pattern (String.◌∷◌ c s)) [
  | none ↦ String.◌∷◌ c (replace_from 0 pattern by s)
  | some rest ↦ string_append by (replace_from (length (codes pattern) - 1) pattern by s)
]

unfoldable pub replace : String → String → String → String
unfolding replace_from
replace s pattern by = replace_from 0 pattern by s

unfoldable pub digit_text : ℕ → String
digit_text d =
    if nat_beq d 0
    then "0"
    else if nat_beq d 1
    then "1"
    else if nat_beq d 2
    then "2"
    else if nat_beq d 3
    then "3"
    else if nat_beq d 4
    then "4"
    else if nat_beq d 5
    then "5"
    else if nat_beq d 6
    then "6"
    else if nat_beq d 7
    then "7"
    else if nat_beq d 8
    then "8"
    else "9"

-- The decimal digits of a number below 10 ^ the fuel.
unfoldable pub decimal_digits : ℕ → ℕ → String
unfolding digit_text
decimal_digits zero n = ""
decimal_digits (suc fuel) n =
    let rest = decimal_digits fuel (n / 10) in
    string_append (if leb 10 n then rest else "") (digit_text (n % 10))

-- `Display` for a number of at most 64 bits, which has 20 digits at most.
unfoldable pub decimal : ℕ → String
unfolding decimal_digits
decimal n = decimal_digits 20 n

-- The prefix of so many bytes; `none` where the cut falls inside a character or beyond the end.
unfoldable pub byte_prefix : ℕ → String → Option String
byte_prefix zero s = some ""
byte_prefix (suc n) String.[] = none
byte_prefix (suc n) (String.◌∷◌ c s) =
    if leb (length (char_bytes (code c))) (suc n)
    then Option.map (String.◌∷◌ c) (byte_prefix (suc n - length (char_bytes (code c))) s)
    else none
