-- ===== src/Words.antt =====
-- `unsigned long` in src/: 64-bit numbers that wrap round.
use concurrent_request_orche.Base.{
  ℕ, ◌+◌, ◌-◌, ◌*◌, ◌%◌, ◌^◌, ◌≤◌, ◌<◌, ◌≡◌, arith, ltb, if◌then◌else◌,
}
use concurrent_request_orche.Base.Int.{ℤ, pos, negsuc, ◌*ℤ◌}

abbrev pub word : ℕ
word = 2 ^ 64

unfoldable pub add64 : ℕ → ℕ → ℕ
add64 a b = (a + b) % word

unfoldable pub sub64 : ℕ → ℕ → ℕ
sub64 a b = (a + word - b) % word

unfoldable pub mul64 : ℕ → ℕ → ℕ
mul64 a b = (a * b) % word

pub sub64-eq : (a b : ℕ) → b ≤ a → a < word → sub64 a b ≡ a - b
unfolding sub64
sub64-eq a b h k = omega arith

pub add64-eq : (a b : ℕ) → a + b < word → add64 a b ≡ a + b
unfolding add64
add64-eq a b h = omega arith

-- `int` is 32 bits wide: the number that a bit pattern stands for.
abbrev pub signed32 : ℕ → ℤ
signed32 w = if ltb w (2 ^ 31) then pos w else negsuc (2 ^ 32 - w - 1)

-- The conversion of an `unsigned long` to `int` keeps the low 32 bits.
unfoldable pub to_int : ℕ → ℤ
to_int n = signed32 (n % 2 ^ 32)

-- The conversion of an `int` to `unsigned long` extends the sign.
unfoldable pub to_word : ℤ → ℕ
to_word (pos n) = n % word
to_word (negsuc n) = word - 1 - n % word

-- `a * b` on `int`. The C standard leaves an overflow undefined; this is the wrap-around of two's
-- complement, which the multiplication of the machine gives.
unfoldable pub mul_int : ℤ → ℤ → ℤ
unfolding to_int to_word ◌*ℤ◌
mul_int a b = to_int (to_word (a *ℤ b))
