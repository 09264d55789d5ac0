-- ===== src/Python/Decimal/RoundTrip.antt =====
-- `int` reads back what `str` writes.
use Prim.Native.Char.{code}
use service_oriented_archite.Base.{
  ℕ, zero, suc, ◌+◌, ◌*◌, ◌/◌, ◌%◌, ◌≤◌, ◌<◌, String, ◌≡◌, refl, ◌∙◌, ap, true, false, Bool, some,
  arith, ltb, eqb, inl, inr, Bool-cases, if◌then◌else◌,
}
use service_oriented_archite.Base.Int.{ℤ, pos, negsuc}
use service_oriented_archite.Python.Decimal.{
  digit, digits, str, Mode, leading, unsigned, in_digits, is_digit, next_mode, scan, int, sub_zero,
}

abbrev accepts_digit : Mode → Bool
accepts_digit Mode.trailing = false
accepts_digit _ = true

code-digit : (d : ℕ) → d < 10 → code (digit d) ≡ b'0' + d
code-digit zero h = refl
code-digit (suc zero) h = refl
code-digit (suc (suc zero)) h = refl
code-digit (suc (suc (suc zero))) h = refl
code-digit (suc (suc (suc (suc zero)))) h = refl
code-digit (suc (suc (suc (suc (suc zero))))) h = refl
code-digit (suc (suc (suc (suc (suc (suc zero)))))) h = refl
code-digit (suc (suc (suc (suc (suc (suc (suc zero))))))) h = refl
code-digit (suc (suc (suc (suc (suc (suc (suc (suc zero)))))))) h = refl
code-digit (suc (suc (suc (suc (suc (suc (suc (suc (suc zero))))))))) h = refl
code-digit (suc (suc (suc (suc (suc (suc (suc (suc (suc (suc d)))))))))) h = absurd (omega arith)

next_mode-digit :
    (m : Mode) (d : ℕ) → d < 10 → accepts_digit m ≡ true → next_mode m (b'0' + d) ≡ some in_digits
unfolding next_mode
next_mode-digit leading d h k = ground arith
next_mode-digit unsigned d h k = ground arith
next_mode-digit in_digits d h k = ground arith
next_mode-digit Mode.underscore d h k = ground arith
next_mode-digit Mode.trailing d h k = cc

is_digit-digit : (d : ℕ) → d < 10 → is_digit (b'0' + d) ≡ true
unfolding is_digit
is_digit-digit d h = ground arith

not_minus : (d : ℕ) → eqb (b'0' + d) b'-' ≡ false
not_minus d = ground arith

-- Every mode but the last reads a digit as the next digit of the number.
scan-digit :
    (m : Mode) (negative : Bool) (n d : ℕ) (rest : String)
    → d < 10
    → accepts_digit m ≡ true
    → scan m negative n (String.◌∷◌ (digit d) rest) ≡ scan in_digits negative (n * 10 + d) rest
unfolding scan
scan-digit Mode.trailing negative n d rest h k = cc
scan-digit leading negative n d rest h k =
    ground
      (arith, code-digit d h, next_mode-digit leading d h refl, is_digit-digit d h, not_minus d)
scan-digit unsigned negative n d rest h k =
    ground
      (arith, code-digit d h, next_mode-digit unsigned d h refl, is_digit-digit d h, not_minus d)
scan-digit in_digits negative n d rest h k =
    ground
      (arith, code-digit d h, next_mode-digit in_digits d h refl, is_digit-digit d h, not_minus d)
scan-digit Mode.underscore negative n d rest h k = ground (
  arith,
  code-digit d h,
  next_mode-digit Mode.underscore d h refl,
  is_digit-digit d h,
  not_minus d,
)

scan-digit_first :
    (m : Mode) (negative : Bool) (n : ℕ) (rest : String)
    → n < 10
    → accepts_digit m ≡ true
    → scan m negative 0 (String.◌∷◌ (digit n) rest) ≡ scan in_digits negative n rest
scan-digit_first m negative n rest h k =
    scan-digit m negative 0 n rest h k ∙ ap (λ v. scan in_digits negative v rest) (omega arith)

-- Reading the digits of `n` reads `n`, and goes on with what follows them.
scan-digits :
    (m : Mode) (negative : Bool) (fuel n : ℕ) (rest : String)
    → n ≤ fuel
    → accepts_digit m ≡ true
    → scan m negative 0 (digits fuel n rest) ≡ scan in_digits negative n rest
unfolding digits
scan-digits m negative zero n rest h k = scan-digit_first m negative n rest (omega arith) k
scan-digits m negative (suc fuel) n rest h k = elim (Bool-cases (ltb n 10)) [
  | inl small ↦ rw small (scan-digit_first m negative n rest (ground arith) k)
  | inr large ↦ rw large (
      scan-digits m negative fuel (n / 10) (String.◌∷◌ (digit (n % 10)) rest) (ground arith) k
      ∙ scan-digit in_digits negative (n / 10) (n % 10) rest (omega arith) refl
      ∙ ap (λ v. scan in_digits negative v rest) (omega arith))
]

scan-minus :
    (rest : String) → scan leading false 0 (String.◌∷◌ "-" rest) ≡ scan unsigned true 0 rest
unfolding scan
scan-minus rest = refl

scan-nil :
    (negative : Bool) (n : ℕ)
    → scan in_digits negative n "" ≡ some (if negative then sub_zero n else pos n)
unfolding scan
scan-nil negative n = refl

-- `int(str(q)) == q` for every integer.
pub int-str : (q : ℤ) → int (str q) ≡ some q
unfolding int str
int-str (pos n) = scan-digits leading false n n "" (omega arith) refl ∙ scan-nil false n
int-str (negsuc n) =
    scan-minus (digits (suc n) (suc n) "")
    ∙ scan-digits unsigned true (suc n) (suc n) "" (omega arith) refl
    ∙ scan-nil true (suc n)
