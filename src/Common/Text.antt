-- ===== src/Common/Text.antt =====
-- Go's `strings` package as far as the program calls it. A `string` is read as text in UTF-8.
use Prim.Native.Nat.{ℕ, ◌+◌}
use Prim.Native.Char.{Char, code}
use Prim.Native.String.{String, compare}
use mathlib.Core.Bool.{Bool, true, false, ◌&&◌, ◌||◌}
use mathlib.Core.List.{List, [], ◌∷◌}
use text.Mathlib.Text.{◌==◌, is_lt, starts_with}
use ruleraven.Common.Tests.{leb, eqb, if◌then◌else◌}

-- `s < t` on strings
abbrev pub ltb_text : String → String → Bool
ltb_text s t = is_lt (compare s t)

-- `_, ok := set[s]`, for a set of texts in any order
abbrev pub contains : List String → String → Bool
contains [] s = false
contains (t ∷ ts) s = t == s || contains ts s

abbrev pub codes : String → List ℕ
codes String.[] = []
codes (String.◌∷◌ c s) = code c ∷ codes s

abbrev pub same_codes : List ℕ → List ℕ → Bool
same_codes [] [] = true
same_codes (a ∷ as') (b ∷ bs) = eqb a b && same_codes as' bs
same_codes _ _ = false

-- `unicode.IsSpace`
unfoldable pub is_space : ℕ → Bool
is_space c =
    (leb 9 c && leb c 13)
    || eqb c 32
    || eqb c 0x85
    || eqb c 0xA0
    || eqb c 0x1680
    || (leb 0x2000 c && leb c 0x200A)
    || eqb c 0x2028
    || eqb c 0x2029
    || eqb c 0x202F
    || eqb c 0x205F
    || eqb c 0x3000

trim_left : String → String
trim_left String.[] = String.[]
trim_left (String.◌∷◌ c s) =
    let rest = trim_left s in if is_space (code c) then rest else String.◌∷◌ c s

-- One step of trimming at the end, from the last character to the first.
abbrev drop_space : Char → String → String
drop_space c String.[] = if is_space (code c) then String.[] else String.◌∷◌ c String.[]
drop_space c (String.◌∷◌ d s) = String.◌∷◌ c (String.◌∷◌ d s)

trim_right : String → String
trim_right String.[] = String.[]
trim_right (String.◌∷◌ c s) = drop_space c (trim_right s)

-- `strings.TrimSpace`
unfoldable pub trim_space : String → String
unfolding trim_left trim_right is_space
trim_space s = trim_right (trim_left s)

-- Case folding of a code point, for comparison with a text in ASCII: beside the ASCII letters, two
-- code points fold to one, U+017F to s and U+212A to k.
abbrev fold_code : ℕ → ℕ
fold_code c =
    if leb b'A' c && leb c b'Z'
    then c + 32
    else if eqb c 0x17F
    then b's'
    else if eqb c 0x212A
    then b'k'
    else c

unfoldable pub folded : String → List ℕ
folded String.[] = []
folded (String.◌∷◌ c s) = fold_code (code c) ∷ folded s

-- `strings.EqualFold`, where one side is in ASCII
unfoldable pub equal_fold : String → String → Bool
unfolding folded
equal_fold s t = same_codes (folded s) (folded t)

-- `strings.ToLower` of a code point, as far as the result is in ASCII: beside the ASCII letters,
-- U+0130 and U+212A are lowered to i and k. Other code points stay out of ASCII and are left alone.
abbrev lower_code : ℕ → ℕ
lower_code c =
    if leb b'A' c && leb c b'Z'
    then c + 32
    else if eqb c 0x130
    then b'i'
    else if eqb c 0x212A
    then b'k'
    else c

unfoldable pub lowered : String → List ℕ
lowered String.[] = []
lowered (String.◌∷◌ c s) = lower_code (code c) ∷ lowered s

-- `strings.ToLower(s) == t`, where `t` is in ASCII
unfoldable pub lower_is : String → String → Bool
unfolding lowered
lower_is s t = same_codes (lowered s) (codes t)

-- `strings.Cut(s, "=")`
unfoldable pub cut_equals : String → String × String × Bool
cut_equals String.[] = ("", "", false)
cut_equals (String.◌∷◌ c s) =
    let (before, after, found) = cut_equals s in
    if eqb (code c) b'=' then ("", s, true) else (String.◌∷◌ c before, after, found)

-- `strings.HasPrefix`
abbrev pub has_prefix : String → String → Bool
has_prefix s prefix = starts_with s prefix
