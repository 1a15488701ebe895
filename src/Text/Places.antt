-- ===== src/Text/Places.antt =====
-- Three digits read by their places.
use concurrent_request_orche.Base.{
  ℕ, zero, suc, ◌+◌, ◌-◌, ◌*◌, ◌/◌, ◌%◌, ◌<◌, ◌≤◌, ◌≡◌, [], ◌∷◌, ◌++◌, dec_lt, arith,
}
use concurrent_request_orche.Text.{Text, show_from, show_ℕ, padded}

-- The first three digits of a text; 0 for a shorter text.
unfoldable pub three_places : Text → ℕ
three_places (a ∷ b ∷ c ∷ s) = (a - b'0') * 100 + (b - b'0') * 10 + (c - b'0')
three_places (a ∷ b ∷ []) = 0
three_places (a ∷ []) = 0
three_places [] = 0

-- A number below 1000 has one, two or three digits.
one_digit : (f n : ℕ) (after : Text) → n < 10 → show_from (suc f) n after ≡ (b'0' + n) ∷ after
unfolding show_from
one_digit f n after h = ground arith

more_digits :
    (f n : ℕ) (after : Text)
    → 10 ≤ n
    → show_from (suc f) n after ≡ show_from f (n / 10) ((b'0' + n % 10) ∷ after)
unfolding show_from
more_digits f n after h = ground arith

pub three_places-padded :
    (n : ℕ) (rest : Text) → n < 1_000 → three_places (padded 3 (show_ℕ n) ++ rest) ≡ n
unfolding three_places padded show_ℕ
three_places-padded n rest h = elim (dec_lt n 10) [
  | yes one ↦ rw (one_digit n n [] one) (omega arith)
  | no more ↦ many n (omega (arith, more)) h
]
  where
    many : (n : ℕ) → 10 ≤ n → n < 1_000 → three_places (padded 3 (show_ℕ n) ++ rest) ≡ n
    many zero m h = absurd (omega (arith, m))
    many (suc zero) m h = absurd (omega (arith, m))
    many (suc (suc k)) m h = elim (dec_lt ((suc (suc k)) / 10) 10) [
      | yes two ↦
          rw
            (
              more_digits (suc (suc k)) (suc (suc k)) [] m,
              one_digit (suc k) (suc (suc k) / 10) ((b'0' + suc (suc k) % 10) ∷ []) two,
            )
            (omega arith)
      | no three ↦
          rw
            (
              more_digits (suc (suc k)) (suc (suc k)) [] m,
              more_digits (suc k) (suc (suc k) / 10) ((b'0' + suc (suc k) % 10) ∷ [])
                  (omega (arith, three)),
              one_digit k (suc (suc k) / 10 / 10)
                  ((b'0' + suc (suc k) / 10 % 10) ∷ (b'0' + suc (suc k) % 10) ∷ [])
                  (omega (arith, h)),
            )
            (omega arith)
    ]
