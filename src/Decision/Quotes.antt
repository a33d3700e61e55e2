-- ===== src/Decision/Quotes.antt =====
-- Texts as the gate reads them: `\s`, `trim`, `includes` and the two forms of a send time
-- (`quoteAppearsIn` and `normalizeSendAt` of src/agents/declarationOfCapital/decisionSchema.ts, and
-- `isWallClockDateTime` of src/util/time.ts). A text is the list of its code points.
use Prim.Native.Char.{code}
use fiscal_mind_agent.Prelude.{
  ℕ, ◌+◌, Bool, true, false, not, ◌&&◌, ◌||◌, ◌≡◌, refl, ap, String, Option, none, some, List, [],
  ◌∷◌, ◌++◌, leb, ltb, ◌==◌, str_eq, if◌then◌else◌, Bool-cases, inl, inr, arith,
}

abbrev pub codes : String → List ℕ
codes String.[] = []
codes (String.◌∷◌ c s) = code c ∷ codes s

-- The code points of `\s`, which `trim` removes too.
is_space : ℕ → Bool
is_space c =
    (leb 9 c && leb c 13)
    || c == 32
    || c == 0xA0
    || c == 0x1680
    || (leb 0x2000 c && leb c 0x200A)
    || c == 0x2028
    || c == 0x2029
    || c == 0x202F
    || c == 0x205F
    || c == 0x3000
    || c == 0xFEFF

is_empty : String → Bool
is_empty s = str_eq s ""

trim_start : String → String
unfolding is_space
trim_start String.[] = ""
trim_start (String.◌∷◌ c s) =
    let rest = trim_start s in if is_space (code c) then rest else String.◌∷◌ c s

trim_end : String → String
unfolding is_space is_empty
trim_end String.[] = ""
trim_end (String.◌∷◌ c s) =
    let rest = trim_end s in if is_space (code c) && is_empty rest then "" else String.◌∷◌ c rest

unfoldable pub trim : String → String
unfolding trim_start trim_end
trim s = trim_end (trim_start s)

-- `replace(/\s+/g, ' ')`; the flag is whether the code point before was a space.
collapse : Bool → String → String
unfolding is_space
collapse after String.[] = ""
collapse after (String.◌∷◌ c s) =
    let rest = collapse (is_space (code c)) s in
    if is_space (code c) then (if after then rest else String.◌∷◌ " " rest) else String.◌∷◌ c rest

unfoldable pub normalize : String → String
unfolding trim collapse
normalize s = trim (collapse false s)

starts_with : List ℕ → List ℕ → Bool
starts_with [] ys = true
starts_with (x ∷ xs) [] = false
starts_with (x ∷ xs) (y ∷ ys) = x == y && starts_with xs ys

includes : List ℕ → List ℕ → Bool
unfolding starts_with
includes needle [] = starts_with needle []
includes needle (y ∷ ys) = starts_with needle (y ∷ ys) || includes needle ys

unfoldable pub quote_appears_in : String → String → Bool
unfolding normalize includes is_empty
quote_appears_in quote text =
    not (is_empty (normalize quote)) && includes (codes (normalize quote)) (codes (normalize text))

-- `length` of a text, in UTF-16 units
unfoldable pub utf16_length : String → ℕ
utf16_length String.[] = 0
utf16_length (String.◌∷◌ c s) = (if ltb (code c) 0x10000 then 1 else 2) + utf16_length s

-- `toLowerCase`, as far as it can give the letters of "asap"
abbrev to_lower : ℕ → ℕ
to_lower c = if leb b'A' c && leb c b'Z' then c + 32 else c

abbrev pub is_asap : List ℕ → Bool
is_asap (a ∷ b ∷ c ∷ d ∷ []) =
    to_lower a == b'a' && to_lower b == b's' && to_lower c == b'a' && to_lower d == b'p'
is_asap _ = false

abbrev is_digit : ℕ → Bool
is_digit c = leb b'0' c && leb c b'9'

-- A mask such as `dddd-dd-dd`: `d` stands for a digit, `_` for a space or a T.
abbrev pub fits : List ℕ → List ℕ → Bool
fits [] [] = true
fits (m ∷ ms) (c ∷ cs) =
    (if m == b'd' then is_digit c else if m == b'_' then c == 32 || c == b'T' else c == m)
    && fits ms cs
fits _ _ = false

-- `WALL_CLOCK_RE`
abbrev pub is_wall_clock : List ℕ → Bool
is_wall_clock cs = fits (codes "dddd-dd-dd_dd:dd") cs || fits (codes "dddd-dd-dd_dd:dd:dd") cs

unfoldable pub normalize_send_at : Option String → Option String
unfolding trim
normalize_send_at none = none
normalize_send_at (some value) =
    if is_asap (codes (trim value))
    then some "asap"
    else if is_wall_clock (codes (trim value))
    then some (trim value)
    else none

-- What it is to stand in a text: the text has it between two parts.
abbrev StandsIn : List ℕ → List ℕ → Type 0
StandsIn needle text = (before : List ℕ) × (after : List ℕ) × (text ≡ before ++ needle ++ after)

starts_with-split :
    (xs ys : List ℕ) → starts_with xs ys ≡ true → (after : List ℕ) × (ys ≡ xs ++ after)
unfolding starts_with
starts_with-split [] ys h = (ys, refl)
starts_with-split (x ∷ xs) [] h = ground arith
starts_with-split (x ∷ xs) (y ∷ ys) h =
    let (after, e) = starts_with-split xs ys (ground arith) in (after, ground (arith, e))

includes-StandsIn : (needle text : List ℕ) → includes needle text ≡ true → StandsIn needle text
unfolding includes
includes-StandsIn needle [] h = let (after, e) = starts_with-split needle [] h in ([], after, e)
includes-StandsIn needle (y ∷ ys) h = elim (Bool-cases (starts_with needle (y ∷ ys))) [
  | inl here ↦ let (after, e) = starts_with-split needle (y ∷ ys) here in ([], after, e)
  | inr later ↦
      let (before, after, e) = includes-StandsIn needle ys (rw later at h) in
      (y ∷ before, after, ap (λ l. y ∷ l) e)
]

-- A quote in a text, white space aside.
abbrev pub IsQuoteOf : String → String → Type 0
IsQuoteOf quote text =
    (str_eq (normalize quote) "" ≡ false)
    × StandsIn (codes (normalize quote)) (codes (normalize text))

pub quote_appears_in-IsQuoteOf :
    (quote text : String) → quote_appears_in quote text ≡ true → IsQuoteOf quote text
unfolding quote_appears_in is_empty
quote_appears_in-IsQuoteOf quote text h = (
  ground arith,
  includes-StandsIn (codes (normalize quote)) (codes (normalize text)) (ground arith),
)
