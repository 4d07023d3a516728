-- ===== src/Utf8.antt =====
-- What the sources use of Go's unicode/utf8, unicode and strings packages: the decoding of the
-- first and the last rune of a byte string, `unicode.IsSpace`, and the trimming of white space.
-- A malformed byte decodes to `rune_error` with width 1, as in Go.
pub mod Trim
use delta_scope.Prelude.{
  ℕ, zero, suc, ◌+◌, ◌-◌, ◌*◌, Bool, true, false, ◌&&◌, ◌||◌, List, [], ◌∷◌, Text, leb, ltb,
  nat_beq, if◌then◌else◌, reverse, length,
}

abbrev pub rune_error : ℕ
rune_error = 0xFFFD

abbrev in_range : ℕ → ℕ → ℕ → Bool
in_range lo hi b = leb lo b && leb b hi

-- A rune and the number of bytes that it takes.
abbrev pub Rune : Type 0
Rune = ℕ × ℕ

abbrev bad : Rune
bad = (rune_error, 1)

decode_two : ℕ → Text → Rune
decode_two c [] = bad
decode_two c (b ∷ s) = if in_range 0x80 0xBF b then ((c - 0xC0) * 64 + (b - 0x80), 2) else bad

-- The second byte's range depends on the first: no overlong form and no surrogate.
decode_three : ℕ → Text → Rune
decode_three c (b ∷ d ∷ s) =
    let lo = if nat_beq c 0xE0 then 0xA0 else 0x80 in
    let hi = if nat_beq c 0xED then 0x9F else 0xBF in
    if in_range lo hi b && in_range 0x80 0xBF d
    then ((c - 0xE0) * 4096 + (b - 0x80) * 64 + (d - 0x80), 3)
    else bad
decode_three c _ = bad

decode_four : ℕ → Text → Rune
decode_four c (b ∷ d ∷ e ∷ s) =
    let lo = if nat_beq c 0xF0 then 0x90 else 0x80 in
    let hi = if nat_beq c 0xF4 then 0x8F else 0xBF in
    if in_range lo hi b && in_range 0x80 0xBF d && in_range 0x80 0xBF e
    then ((c - 0xF0) * 262144 + (b - 0x80) * 4096 + (d - 0x80) * 64 + (e - 0x80), 4)
    else bad
decode_four c _ = bad

-- `utf8.DecodeRuneInString`
unfoldable pub decode_rune : Text → Rune
unfolding decode_two decode_three decode_four
decode_rune [] = (rune_error, 0)
decode_rune (c ∷ s) =
    if ltb c 0x80
    then (c, 1)
    else if in_range 0xC2 0xDF c
    then decode_two c s
    else if in_range 0xE0 0xEF c
    then decode_three c s
    else if in_range 0xF0 0xF4 c
    then decode_four c s
    else bad

-- The bytes of the last rune: back to the nearest byte that can start one, three steps at most.
last_window : ℕ → Text → Text → Text
last_window zero before acc = acc
last_window (suc n) [] acc = acc
last_window (suc n) (b ∷ before) acc =
    let further = last_window n before (b ∷ acc) in
    if in_range 0x80 0xBF b then further else b ∷ acc

-- `utf8.DecodeLastRuneInString`, on the text's bytes from the last to the first.
unfoldable pub decode_last_rune : Text → Rune
unfolding decode_rune last_window
decode_last_rune [] = (rune_error, 0)
decode_last_rune (c ∷ before) =
    if ltb c 0x80
    then (c, 1)
    else let window = last_window 3 before (c ∷ []) in
      let (r, size) = decode_rune window in if nat_beq size (length window) then (r, size) else bad

-- `unicode.IsSpace`
unfoldable pub is_space : ℕ → Bool
is_space r =
    in_range 9 13 r
    || nat_beq r 32
    || nat_beq r 0x85
    || nat_beq r 0xA0
    || nat_beq r 0x1680
    || in_range 0x2000 0x200A r
    || nat_beq r 0x2028
    || nat_beq r 0x2029
    || nat_beq r 0x202F
    || nat_beq r 0x205F
    || nat_beq r 0x3000

-- Drops leading white space; the first argument counts the bytes left of a rune that is dropped.
trim_left_from : ℕ → Text → Text
trim_left_from k [] = []
trim_left_from (suc k) (c ∷ s) = trim_left_from k s
trim_left_from zero (c ∷ s) =
    let (r, width) = decode_rune (c ∷ s) in
    let rest = trim_left_from (width - 1) s in if is_space r then rest else c ∷ s

-- The same from the end, on the reversed text.
trim_right_from : ℕ → Text → Text
trim_right_from k [] = []
trim_right_from (suc k) (c ∷ s) = trim_right_from k s
trim_right_from zero (c ∷ s) =
    let (r, width) = decode_last_rune (c ∷ s) in
    let rest = trim_right_from (width - 1) s in if is_space r then rest else c ∷ s

-- `strings.TrimLeftFunc(s, unicode.IsSpace)`
unfoldable pub trim_left : Text → Text
unfolding trim_left_from decode_rune is_space
trim_left s = trim_left_from 0 s

unfoldable pub trim_right : Text → Text
unfolding trim_right_from decode_last_rune is_space
trim_right s = reverse (trim_right_from 0 (reverse s))

-- `strings.TrimSpace`
unfoldable pub trim_space : Text → Text
unfolding trim_left trim_right
trim_space s = trim_right (trim_left s)
