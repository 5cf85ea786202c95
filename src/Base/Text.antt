-- ===== src/Base/Text.antt =====
-- The functions of Go's `strings` and `strconv` that the program calls, over the characters of a
-- text.
use Prim.Native.Nat.{ℕ, zero, suc, ◌+◌, ◌-◌, ◌*◌, ◌/◌, ◌%◌}
use Prim.Native.Char.{Char, code}
use Prim.Native.String.{String, ◌++◌}
use mathlib.Core.Bool.{Bool, true, false, ◌&&◌, ◌||◌}
use mathlib.Core.List.{List, [], ◌∷◌}
use mathlib.Core.Option.{Option, none, some}
use text.Mathlib.Text.{◌==◌}
use tsserve.Base.Tests.{ltb, leb, eqb, if◌then◌else◌}

-- `unicode.IsSpace`.
unfoldable pub is_space : Char → Bool
is_space ch =
    let c = code ch in
    (leb 9 c && leb c 13)
    || eqb c 32
    || eqb c 0x85
    || eqb c 0xa0
    || eqb c 0x1680
    || (leb 0x2000 c && leb c 0x200a)
    || eqb c 0x2028
    || eqb c 0x2029
    || eqb c 0x202f
    || eqb c 0x205f
    || eqb c 0x3000

pub trim_left : String → String
unfolding is_space
trim_left String.[] = String.[]
trim_left (String.◌∷◌ c s) = if is_space c then trim_left s else String.◌∷◌ c s

pub is_blank : String → Bool
unfolding is_space
is_blank String.[] = true
is_blank (String.◌∷◌ c s) = is_space c && is_blank s

pub trim_right : String → String
unfolding is_blank
trim_right String.[] = String.[]
trim_right (String.◌∷◌ c s) =
    let rest = trim_right s in if is_space c && is_blank s then String.[] else String.◌∷◌ c rest

-- `strings.TrimSpace`.
unfoldable pub trim_space : String → String
unfolding trim_left trim_right
trim_space s = trim_right (trim_left s)

-- `strings.HasPrefix`, as the text that follows the prefix.
unfoldable pub strip_prefix : String → String → Option String
strip_prefix String.[] s = some s
strip_prefix (String.◌∷◌ p ps) String.[] = none
strip_prefix (String.◌∷◌ p ps) (String.◌∷◌ c s) =
    if eqb (code p) (code c) then strip_prefix ps s else none

unfoldable pub has_prefix : String → String → Bool
unfolding strip_prefix
has_prefix p s = elim (strip_prefix p s) [ none ↦ false | some rest ↦ true ]

-- `strings.HasSuffix` of the text `s`, with the suffix first.
unfoldable pub has_suffix : String → String → Bool
has_suffix suffix String.[] = suffix == ""
has_suffix suffix (String.◌∷◌ c s) = String.◌∷◌ c s == suffix || has_suffix suffix s

-- `strings.Contains` of the text `s`, with the part first.
unfoldable pub contains_text : String → String → Bool
unfolding has_prefix
contains_text part String.[] = part == ""
contains_text part (String.◌∷◌ c s) = has_prefix part (String.◌∷◌ c s) || contains_text part s

-- `strings.TrimPrefix` of the text `s`, with the prefix first.
unfoldable pub trim_prefix : String → String → String
unfolding strip_prefix
trim_prefix p s = elim (strip_prefix p s) [ none ↦ s | some rest ↦ rest ]

-- The characters of `strings.ToLower(s)`, as far as they decide the presence of an ASCII text: the
-- capitals, and the two other characters whose lower case is an ASCII letter.
unfoldable pub lower_code : ℕ → ℕ
lower_code c =
    if leb b'A' c && leb c b'Z'
    then c + 32
    else if eqb c 0x212a
    then b'k'
    else if eqb c 0x130
    then b'i'
    else c

unfoldable pub lower_codes : String → List ℕ
unfolding lower_code
lower_codes String.[] = []
lower_codes (String.◌∷◌ c s) = lower_code (code c) ∷ lower_codes s

pub starts_with_text : String → List ℕ → Bool
starts_with_text String.[] s = true
starts_with_text (String.◌∷◌ p ps) [] = false
starts_with_text (String.◌∷◌ p ps) (c ∷ s) = eqb (code p) c && starts_with_text ps s

-- `strings.Contains` of the characters `s`, with the part first.
unfoldable pub contains_codes : String → List ℕ → Bool
unfolding starts_with_text
contains_codes part [] = part == ""
contains_codes part (c ∷ s) = starts_with_text part (c ∷ s) || contains_codes part s

abbrev push_char : Char → List String → List String
push_char c [] = String.◌∷◌ c "" ∷ []
push_char c (part ∷ parts) = String.◌∷◌ c part ∷ parts

-- `strings.Split` at a separator of one character.
unfoldable pub split : ℕ → String → List String
split sep String.[] = "" ∷ []
split sep (String.◌∷◌ c s) =
    let parts = split sep s in if eqb (code c) sep then "" ∷ parts else push_char c parts

-- `strings.Join`.
unfoldable pub join : String → List String → String
join sep [] = ""
join sep (x ∷ []) = x
join sep (x ∷ y ∷ xs) = x ++ sep ++ join sep (y ∷ xs)

-- The text up to the first character of code `sep`, as `s[:strings.IndexByte(s, sep)]`.
unfoldable pub before : ℕ → String → String
before sep String.[] = ""
before sep (String.◌∷◌ c s) =
    let rest = before sep s in if eqb (code c) sep then "" else String.◌∷◌ c rest

is_digit : Char → Bool
is_digit c = leb b'0' (code c) && leb (code c) b'9'

-- The value of a text of decimal digits, from the value of what stands before it.
unfoldable pub digits : ℕ → String → Option ℕ
unfolding is_digit
digits n String.[] = some n
digits n (String.◌∷◌ c s) = if is_digit c then digits (n * 10 + (code c - b'0')) s else none

-- `strconv.ParseUint(s, 10, 16)`: digits alone, at least one, and a value of 16 bits.
unfoldable pub parse_uint16 : String → Option ℕ
unfolding digits
parse_uint16 s =
    if s == ""
    then none
    else elim (digits 0 s) [ none ↦ none | some n ↦ if ltb 65535 n then none else some n ]

-- The text at a position of a list, or the last one.
nth_text : ℕ → String → List String → String
nth_text n x [] = x
nth_text zero x (y ∷ ys) = x
nth_text (suc n) x (y ∷ ys) = nth_text n y ys

digit : ℕ → String
unfolding nth_text
digit n = nth_text n "0" ("1" ∷ "2" ∷ "3" ∷ "4" ∷ "5" ∷ "6" ∷ "7" ∷ "8" ∷ "9" ∷ [])

pub itoa_within : ℕ → ℕ → String
unfolding digit
itoa_within zero n = ""
itoa_within (suc fuel) n =
    let rest = if ltb n 10 then "" else itoa_within fuel (n / 10) in rest ++ digit (n % 10)

-- `strconv.Itoa` and `%d` of a natural number of 64 bits, which has at most 20 digits.
unfoldable pub itoa : ℕ → String
unfolding itoa_within
itoa n = itoa_within 20 n

-- Whether a text has a colon.
unfoldable pub has_colon : String → Bool
has_colon String.[] = false
has_colon (String.◌∷◌ c s) = eqb (code c) b':' || has_colon s

-- The fold of a character's code onto lower-case ASCII letters, as `strings.EqualFold` has it: beside the capitals, two
-- other characters fold onto such a letter.
fold_code : ℕ → ℕ
fold_code c =
    if leb b'A' c && leb c b'Z'
    then c + 32
    else if eqb c 0x212a
    then b'k'
    else if eqb c 0x17f
    then b's'
    else c

same_codes : String → String → Bool
unfolding fold_code
same_codes String.[] String.[] = true
same_codes String.[] (String.◌∷◌ d t) = false
same_codes (String.◌∷◌ c s) String.[] = false
same_codes (String.◌∷◌ c s) (String.◌∷◌ d t) = eqb (fold_code (code c)) (code d) && same_codes s t

-- `strings.EqualFold` of a text with one of lower-case ASCII letters and hyphens.
unfoldable pub same_fold : String → String → Bool
unfolding same_codes
same_fold s lower = same_codes s lower

abbrev lower_letters : List String
lower_letters =
    "b" ∷ "c" ∷ "d" ∷ "e" ∷ "f" ∷ "g" ∷ "h" ∷ "i" ∷ "j" ∷ "k" ∷ "l" ∷ "m" ∷ "n" ∷ "o" ∷ "p" ∷ "q"
    ∷ "r" ∷ "s" ∷ "t" ∷ "u" ∷ "v" ∷ "w" ∷ "x" ∷ "y" ∷ "z" ∷ []

-- `strings.ToLower` of an ASCII text, such as a header's name.
unfoldable pub to_lower : String → String
unfolding nth_text
to_lower String.[] = ""
to_lower (String.◌∷◌ c s) =
    let rest = to_lower s in
    if leb b'A' (code c) && leb (code c) b'Z'
    then nth_text (code c - b'A') "a" lower_letters ++ rest
    else String.◌∷◌ c rest
