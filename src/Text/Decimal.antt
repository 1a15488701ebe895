-- ===== src/Text/Decimal.antt =====
-- Reading back what was printed.
use concurrent_request_orche.Base.{
  ℕ, zero, suc, ◌+◌, ◌-◌, ◌/◌, ◌%◌, ◌<◌, ◌≡◌, refl, Bool, true, false, [], ◌∷◌, ◌++◌, append_assoc,
  length, replicate, ltb, ◌∙◌, inl, inr, Bool-cases, if◌then◌else◌, arith,
}
use concurrent_request_orche.Base.Int.{pos}
use concurrent_request_orche.Text.{
  Text, is_digit, is_space, digits, signed, skip_space, atoi, show_from, show_ℕ, padded,
  show_padded,
}

-- What follows a printed number is read on from it.
digits-show_from :
    (f n : ℕ) (after : Text) → n < f → digits (show_from f n after) 0 ≡ digits after n
unfolding digits show_from is_digit
digits-show_from zero n after h = absurd (omega arith)
digits-show_from (suc f) n after h = elim (Bool-cases (ltb n 10)) [
  | inl one ↦ rw one (ground arith)
  | inr more ↦
      rw more (digits-show_from f (n / 10) ((b'0' + n % 10) ∷ after) (ground arith) ∙ ground arith)
]

show_from-append :
    (f n : ℕ) (after rest : Text) → show_from f n after ++ rest ≡ show_from f n (after ++ rest)
unfolding show_from
show_from-append zero n after rest = refl
show_from-append (suc f) n after rest =
    ground (arith, show_from-append f (n / 10) ((b'0' + n % 10) ∷ after) rest)

-- A printed number is read back, up to what follows it.
pub digits-show_ℕ : (n : ℕ) (rest : Text) → digits (show_ℕ n ++ rest) 0 ≡ digits rest n
unfolding show_ℕ
digits-show_ℕ n rest =
    rw (show_from-append (suc n) n [] rest) (digits-show_from (suc n) n rest (omega arith))

digits-zeros : (k : ℕ) (s : Text) → digits (replicate k b'0' ++ s) 0 ≡ digits s 0
unfolding digits is_digit
digits-zeros zero s = refl
digits-zeros (suc k) s = digits-zeros k s

pub digits-padded : (w n : ℕ) (rest : Text) → digits (padded w (show_ℕ n) ++ rest) 0 ≡ digits rest n
unfolding padded
digits-padded w n rest =
    rw (append_assoc (replicate (w - length (show_ℕ n)) b'0') (show_ℕ n) rest)
      (digits-zeros (w - length (show_ℕ n)) (show_ℕ n ++ rest) ∙ digits-show_ℕ n rest)

abbrev pub starts : Text → Bool
starts [] = false
starts (c ∷ s) = is_digit c

starts-show_from : (f n : ℕ) (after : Text) → n < f → starts (show_from f n after) ≡ true
unfolding show_from is_digit
starts-show_from zero n after h = absurd (omega arith)
starts-show_from (suc f) n after h = elim (Bool-cases (ltb n 10)) [
  | inl one ↦ rw one (ground arith)
  | inr more ↦ rw more (starts-show_from f (n / 10) ((b'0' + n % 10) ∷ after) (ground arith))
]

pub starts-show_ℕ : (n : ℕ) (rest : Text) → starts (show_ℕ n ++ rest) ≡ true
unfolding show_ℕ
starts-show_ℕ n rest =
    rw (show_from-append (suc n) n [] rest) (starts-show_from (suc n) n rest (omega arith))

pub starts-padded : (w n : ℕ) (rest : Text) → starts (padded w (show_ℕ n) ++ rest) ≡ true
unfolding padded
starts-padded w n rest =
    rw (append_assoc (replicate (w - length (show_ℕ n)) b'0') (show_ℕ n) rest)
      (starts-zeros (w - length (show_ℕ n)) (show_ℕ n ++ rest) (starts-show_ℕ n rest))
  where
    starts-zeros : (k : ℕ) (s : Text) → starts s ≡ true → starts (replicate k b'0' ++ s) ≡ true
    starts-zeros zero s h = h
    starts-zeros (suc k) s h = unfold is_digit in refl

atoi-digits : (s : Text) → starts s ≡ true → atoi s ≡ pos (digits s 0)
unfolding atoi skip_space signed is_digit is_space
atoi-digits [] h = absurd (cc)
atoi-digits (c ∷ s) h = ground arith

pub atoi-padded : (w n : ℕ) (rest : Text) → atoi (padded w (show_ℕ n) ++ rest) ≡ pos (digits rest n)
atoi-padded w n rest =
    rw (atoi-digits (padded w (show_ℕ n) ++ rest) (starts-padded w n rest), digits-padded w n rest)
      refl

-- What follows the digits.
pub after_digits : Text → Text
unfolding is_digit
after_digits [] = []
after_digits (c ∷ s) = let rest = after_digits s in if is_digit c then rest else c ∷ s

after_digits-show_from :
    (f n : ℕ) (after : Text) → n < f → after_digits (show_from f n after) ≡ after_digits after
unfolding after_digits show_from
after_digits-show_from zero n after h = absurd (omega arith)
after_digits-show_from (suc f) n after h = elim (Bool-cases (ltb n 10)) [
  | inl one ↦ rw one (ground arith)
  | inr more ↦
      rw more
        (after_digits-show_from f (n / 10) ((b'0' + n % 10) ∷ after) (ground arith) ∙ ground arith)
]

pub after_digits-padded :
    (w n c : ℕ) (rest : Text)
    → is_digit c ≡ false
    → after_digits (padded w (show_ℕ n) ++ c ∷ rest) ≡ c ∷ rest
unfolding padded show_ℕ after_digits
after_digits-padded w n c rest h =
    rw
      (
        append_assoc (replicate (w - length (show_ℕ n)) b'0') (show_ℕ n) (c ∷ rest),
        show_from-append (suc n) n [] (c ∷ rest),
      )
      (after_zeros (w - length (show_ℕ n)) (show_from (suc n) n (c ∷ rest))
        ∙ after_digits-show_from (suc n) n (c ∷ rest) (omega arith)
        ∙ ground arith)
  where
    after_zeros : (k : ℕ) (s : Text) → after_digits (replicate k b'0' ++ s) ≡ after_digits s
    after_zeros zero s = refl
    after_zeros (suc k) s = after_zeros k s

pub show_padded-pos : (w n : ℕ) → show_padded w (pos n) ≡ padded w (show_ℕ n)
unfolding show_padded
show_padded-pos w n = refl
