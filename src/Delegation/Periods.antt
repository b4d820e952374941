-- ===== src/Delegation/Periods.antt =====
-- `_PERIOD_RE` of novapanda/delegate.py.
use Prim.Native.Char.{Char, code}
use novapanda.Base.{
  ℕ, ◌+◌, ◌-◌, ◌*◌, String, Bool, true, false, ◌&&◌, ◌||◌, Option, none, some, ◌==◌, leb, eqb,
  or_else, is_some, if◌then◌else◌,
}

abbrev is_digit : Char → Bool
is_digit a = leb 48 (code a) && leb (code a) 57

-- The digits at the start, after those of `n`, and what follows them; `none` where there are none.
unfoldable pub digits_from : Option ℕ → String → Option ℕ × String
digits_from n String.[] = (n, "")
digits_from n (String.◌∷◌ a s) =
    let rest = digits_from (some (or_else n 0 * 10 + (code a - 48))) s in
    if is_digit a then rest else (n, String.◌∷◌ a s)

abbrev is_only : ℕ → String → Bool
is_only c (String.◌∷◌ a String.[]) = eqb (code a) c
is_only c _ = false

abbrev ends_in_hours : Option ℕ × String → Bool
ends_in_hours (n, rest) = is_some n && is_only 72 rest

-- `(?:T(?:(\d+)H)?)?$`
unfoldable pub hours_match : String → Bool
unfolding digits_from
hours_match String.[] = true
hours_match (String.◌∷◌ a s) = eqb (code a) 84 && (s == "" || ends_in_hours (digits_from none s))

abbrev days_end : ℕ → String → Option ℕ
days_end n String.[] = none
days_end n (String.◌∷◌ a s) = if eqb (code a) 68 && hours_match s then some n else none

abbrev days_or : String → Option ℕ × String → Option ℕ
days_or s (some n, rest) = days_end n rest
days_or s (none, _) = if hours_match s then some 0 else none

-- the days of a match of `_PERIOD_RE`, with ASCII digits
unfoldable pub period_days : String → Option ℕ
unfolding digits_from hours_match
period_days String.[] = none
period_days (String.◌∷◌ a s) = if eqb (code a) 80 then days_or s (digits_from none s) else none
