-- ===== src/Text/Width.antt =====
-- How long printed numbers are.
use concurrent_request_orche.Base.{
  ℕ, zero, suc, ◌+◌, ◌-◌, ◌*◌, ◌/◌, ◌%◌, ◌^◌, ◌<◌, ◌≤◌, ◌≡◌, refl, Bool, true, false, List, [], ◌∷◌,
  ◌++◌, length, length-append, length-replicate, replicate, ltb, inl, inr, Bool-cases,
  if◌then◌else◌, arith,
}
use concurrent_request_orche.Base.Int.{ℤ, pos, negsuc, pos_part, neg_part}
use concurrent_request_orche.Text.{
  Text, show_from, show_ℕ, show_ℤ, padded, show_thousandths, show_thousandths_ℤ,
}

abbrev pub pow10 : ℕ → ℕ
pow10 zero = 1
pow10 (suc k) = 10 * pow10 k

length-show_from :
    (f k n : ℕ) (after : Text)
    → n < pow10 (suc k)
    → length (show_from f n after) ≤ suc k + length after
unfolding show_from
length-show_from zero k n after h = omega arith
length-show_from (suc f) zero n after h = ground arith
length-show_from (suc f) (suc k) n after h = elim (Bool-cases (ltb n 10)) [
  | inl one ↦ rw one (omega arith)
  | inr more ↦
      rw more (omega (arith, length-show_from f k (n / 10) ((b'0' + n % 10) ∷ after) (omega arith)))
]

-- A number below 10 ^ (k + 1) has k + 1 digits at most.
pub length-show_ℕ : (k n : ℕ) → n < pow10 (suc k) → length (show_ℕ n) ≤ suc k
unfolding show_ℕ
length-show_ℕ k n h = omega (arith, length-show_from (suc n) k n [] h)

-- What an `int` holds.
abbrev pub IsInt : ℤ → Type 0
IsInt a = (pos_part a < 2 ^ 31) × (neg_part a ≤ 2 ^ 31)

pub length-show_ℤ : (a : ℤ) → IsInt a → length (show_ℤ a) ≤ 11
unfolding show_ℤ
length-show_ℤ (pos n) h = omega (arith, length-show_ℕ 9 n (omega arith))
length-show_ℤ (negsuc n) h = omega (arith, length-show_ℕ 9 (suc n) (omega arith))

length-padded : (w : ℕ) (s : Text) → length s ≤ w → length (padded w s) ≡ w
unfolding padded
length-padded w s h = omega (
  arith,
  length-append (replicate (w - length s) b'0') s,
  length-replicate {A = ℕ} (w - length s) b'0',
)

pub length-show_thousandths : (n : ℕ) → n < 2 ^ 64 → length (show_thousandths n) ≤ 21
unfolding show_thousandths
length-show_thousandths n h = omega (
  arith,
  length-append (show_ℕ (n / 1_000)) (b'.' ∷ padded 3 (show_ℕ (n % 1_000))),
  length-padded 3 (show_ℕ (n % 1_000)) (length-show_ℕ 2 (n % 1_000) (omega arith)),
  length-show_ℕ 16 (n / 1_000) (omega arith),
)

-- A time in microseconds, as an `int` or as an `unsigned long`.
abbrev pub IsTime : ℤ → Type 0
IsTime a = (pos_part a < 2 ^ 64) × (neg_part a ≤ 2 ^ 31)

pub length-show_thousandths_ℤ : (a : ℤ) → IsTime a → length (show_thousandths_ℤ a) ≤ 22
unfolding show_thousandths_ℤ
length-show_thousandths_ℤ (pos n) h = omega (arith, length-show_thousandths n (omega arith))
length-show_thousandths_ℤ (negsuc n) h =
    omega (arith, length-show_thousandths (suc n) (omega arith))

pub length-append_text : (s t : Text) → length (s ++ t) ≡ length s + length t
length-append_text = length-append

-- For `omega`, on texts.
pub ruleset lengths = (arith, length-append_text)
