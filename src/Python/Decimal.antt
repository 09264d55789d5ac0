-- ===== src/Python/Decimal.antt =====
-- `str` of an integer and `int` of a text, which hm6/consumer/handlers.py uses to keep the quantity
-- of an order item. `int` accepts blanks around the number, a sign, and single underscores
-- between digits; only ASCII digits and blanks are read.
pub mod RoundTrip
use Prim.Native.Char.{Char, code}
use service_oriented_archite.Base.{
  ℕ, zero, suc, ◌+◌, ◌-◌, ◌*◌, ◌/◌, ◌%◌, String, ◌≡◌, refl, Bool, true, false, ◌&&◌, ◌||◌, Option,
  none, some, ltb, leb, eqb, if◌then◌else◌,
}
use service_oriented_archite.Base.Int.{ℤ, pos, negsuc}

abbrev pub digit : ℕ → Char
digit zero = "0"
digit (suc zero) = "1"
digit (suc (suc zero)) = "2"
digit (suc (suc (suc zero))) = "3"
digit (suc (suc (suc (suc zero)))) = "4"
digit (suc (suc (suc (suc (suc zero))))) = "5"
digit (suc (suc (suc (suc (suc (suc zero)))))) = "6"
digit (suc (suc (suc (suc (suc (suc (suc zero))))))) = "7"
digit (suc (suc (suc (suc (suc (suc (suc (suc zero)))))))) = "8"
digit _ = "9"

-- The decimal digits of `n` in front of `rest`. Fuel `n` is enough, since `n / 10 < n`.
unfoldable pub digits : ℕ → ℕ → String → String
digits zero n rest = String.◌∷◌ (digit n) rest
digits (suc fuel) n rest =
    let more = digits fuel (n / 10) (String.◌∷◌ (digit (n % 10)) rest) in
    if ltb n 10 then String.◌∷◌ (digit n) rest else more

-- `str(n)`
unfoldable pub str : ℤ → String
unfolding digits
str (pos n) = digits n n ""
str (negsuc n) = String.◌∷◌ "-" (digits (suc n) (suc n) "")

-- Where `int` stands in a text: before the sign, before a first digit, after a digit, after an
-- underscore, in the blanks at the end.
pub data Mode : Type 0 where
  leading unsigned in_digits underscore trailing : Mode

unfoldable pub is_digit : ℕ → Bool
is_digit c = leb b'0' c && leb c b'9'

unfoldable pub is_blank : ℕ → Bool
is_blank c = (leb 9 c && leb c 13) || (leb 28 c && leb c 32)

unfoldable pub is_sign : ℕ → Bool
is_sign c = eqb c b'+' || eqb c b'-'

unfoldable pub next_mode : Mode → ℕ → Option Mode
unfolding is_digit is_blank is_sign
next_mode leading c =
    if is_digit c
    then some in_digits
    else if is_blank c
    then some leading
    else if is_sign c
    then some unsigned
    else none
next_mode unsigned c = if is_digit c then some in_digits else none
next_mode underscore c = if is_digit c then some in_digits else none
next_mode in_digits c =
    if is_digit c
    then some in_digits
    else if eqb c b'_'
    then some underscore
    else if is_blank c
    then some trailing
    else none
next_mode trailing c = if is_blank c then some trailing else none

-- -n
abbrev pub sub_zero : ℕ → ℤ
sub_zero zero = pos 0
sub_zero (suc n) = negsuc n

-- Only a digit changes the number, and only a minus its sign.
unfoldable pub scan : Mode → Bool → ℕ → String → Option ℤ
unfolding next_mode
scan in_digits negative n String.[] = some (if negative then sub_zero n else pos n)
scan trailing negative n String.[] = some (if negative then sub_zero n else pos n)
scan _ negative n String.[] = none
scan m negative n (String.◌∷◌ c rest) = elim (next_mode m (code c)) [
  | none ↦ none
  | some m' ↦
      scan m' (negative || eqb (code c) b'-')
        (if is_digit (code c) then n * 10 + (code c - b'0') else n) rest
]

-- `int(text)`; `none` is a ValueError.
unfoldable pub int : String → Option ℤ
unfolding scan
int = scan leading false 0

int_texts :
    (int " -1_024 " ≡ some (negsuc 1023))
    × (int "+7" ≡ some (pos 7))
    × (int "1__0" ≡ none)
    × (int "" ≡ none)
    × (int "12 3" ≡ none)
unfolding int
int_texts = (refl, refl, refl, refl, refl)

str_texts : (str (negsuc 1023) ≡ "-1024") × (str (pos 0) ≡ "0")
unfolding str
str_texts = (refl, refl)
