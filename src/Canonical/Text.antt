-- ===== src/Canonical/Text.antt =====
-- The texts that `json.dumps` writes for numbers, texts and the parts of containers, with
-- `ensure_ascii=False` and compact separators.
use Prim.Native.Char.{Char, code}
use Prim.Native.String.{◌++◌ as str_append}
use novapanda.Base.{
  ℕ, zero, suc, ◌/◌, ◌%◌, String, Bool, true, false, List, [], ◌∷◌, eqb, ltb, if◌then◌else◌,
}
use novapanda.Base.Int.{ℤ, pos, negsuc}

infixr 65 ◌⋅◌
abbrev pub ◌⋅◌ : String → String → String
s ⋅ t = str_append s t

unfoldable pub digit : ℕ → String
digit n =
    if eqb n 0
    then "0"
    else if eqb n 1
    then "1"
    else if eqb n 2
    then "2"
    else if eqb n 3
    then "3"
    else if eqb n 4
    then "4"
    else if eqb n 5
    then "5"
    else if eqb n 6
    then "6"
    else if eqb n 7
    then "7"
    else if eqb n 8
    then "8"
    else if eqb n 9
    then "9"
    else if eqb n 10
    then "a"
    else if eqb n 11
    then "b"
    else if eqb n 12
    then "c"
    else if eqb n 13
    then "d"
    else if eqb n 14
    then "e"
    else "f"

-- The digits of a number before a text; a number has fewer digits than the fuel of `decimal`.
digits_from : ℕ → ℕ → String → String
unfolding digit
digits_from zero n rest = rest
digits_from (suc f) n rest =
    let more = digits_from f (n / 10) (digit (n % 10) ⋅ rest) in
    if ltb n 10 then digit n ⋅ rest else more

unfoldable pub decimal : ℕ → String
unfolding digits_from
decimal n = digits_from (suc n) n ""

unfoldable pub int_text : ℤ → String
unfolding decimal
int_text (pos n) = decimal n
int_text (negsuc n) = "-" ⋅ decimal (suc n)

unfoldable pub escape : Char → String
unfolding digit
escape c =
    let n = code c in
    if eqb n 34
    then "\\\""
    else if eqb n 92
    then "\\\\"
    else if eqb n 8
    then "\\b"
    else if eqb n 12
    then "\\f"
    else if eqb n 10
    then "\\n"
    else if eqb n 13
    then "\\r"
    else if eqb n 9
    then "\\t"
    else if ltb n 32
    then "\\u00" ⋅ digit (n / 16) ⋅ digit (n % 16)
    else String.◌∷◌ c String.[]

unfoldable pub escape_all : String → String
unfolding escape
escape_all String.[] = ""
escape_all (String.◌∷◌ c s) = escape c ⋅ escape_all s

unfoldable pub quoted : String → String
unfolding escape_all
quoted s = "\"" ⋅ escape_all s ⋅ "\""

-- Texts joined by commas.
unfoldable pub commas : List String → String
commas [] = ""
commas (s ∷ []) = s
commas (s ∷ t ∷ ts) = s ⋅ "," ⋅ commas (t ∷ ts)

-- `s < t` on texts: by code points, a prefix first.
unfoldable pub before : String → String → Bool
before s String.[] = false
before String.[] (String.◌∷◌ d t) = true
before (String.◌∷◌ c s) (String.◌∷◌ d t) =
    if ltb (code c) (code d) then true else if eqb (code c) (code d) then before s t else false
