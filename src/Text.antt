-- ===== src/Text.antt =====
-- Text as the list of its bytes, and what `printf` and `atoi` of the C library make of numbers.
pub mod Decimal
pub mod Places
pub mod Width
use Prim.Native.Char.{code}
use Prim.Native.String.{String}
use concurrent_request_orche.Base.{
  ℕ, zero, suc, ◌+◌, ◌-◌, ◌*◌, ◌/◌, ◌%◌, ◌≡◌, refl, Bool, true, false, ◌&&◌, ◌||◌, List, [], ◌∷◌,
  ◌++◌, length, replicate, leb, ltb, ◌==◌, if◌then◌else◌,
}
use concurrent_request_orche.Base.Int.{ℤ, pos, negsuc, ◌-ℤ◌}

abbrev pub Text : Type 0
Text = List ℕ

-- One piece after the other.
abbrev pub joined : List Text → Text
joined [] = []
joined (t ∷ ts) = t ++ joined ts

-- The bytes of a literal.
abbrev pub codes : String → Text
codes String.[] = []
codes (String.◌∷◌ c s) = code c ∷ codes s

unfoldable pub is_digit : ℕ → Bool
is_digit c = leb b'0' c && leb c b'9'

is_space : ℕ → Bool
is_space c = (c == 32) || (leb 9 c && leb c 13)

-- Digits up to the first byte that is none.
unfoldable pub digits : Text → (before : ℕ) → ℕ
unfolding is_digit
digits [] n = n
digits (c ∷ s) n = let rest = digits s (10 * n + (c - b'0')) in if is_digit c then rest else n

signed : Text → ℤ
unfolding digits ◌-ℤ◌
signed [] = pos 0
signed (c ∷ s) =
    if c == b'-'
    then pos 0 -ℤ pos (digits s 0)
    else if c == b'+'
    then pos (digits s 0)
    else pos (digits (c ∷ s) 0)

skip_space : Text → Text
unfolding is_space
skip_space [] = []
skip_space (c ∷ s) = let rest = skip_space s in if is_space c then rest else c ∷ s

-- `atoi`: white space, a sign, and digits.
unfoldable pub atoi : Text → ℤ
unfolding skip_space signed
atoi s = signed (skip_space s)

-- `%d` of a number that is not negative. The fuel is the number itself, which is more than it has
-- digits.
show_from : (fuel n : ℕ) → Text → Text
show_from zero n after = after
show_from (suc f) n after =
    let rest = show_from f (n / 10) ((b'0' + n % 10) ∷ after) in
    if ltb n 10 then (b'0' + n) ∷ after else rest

unfoldable pub show_ℕ : ℕ → Text
unfolding show_from
show_ℕ n = show_from (suc n) n []

-- `%d`.
unfoldable pub show_ℤ : ℤ → Text
unfolding show_ℕ
show_ℤ (pos n) = show_ℕ n
show_ℤ (negsuc n) = b'-' ∷ show_ℕ (suc n)

pub padded : (width : ℕ) → Text → Text
padded w s = replicate (w - length s) b'0' ++ s

-- `%08d` and the like: the sign stands before the zeros.
unfoldable pub show_padded : (width : ℕ) → ℤ → Text
unfolding padded show_ℕ
show_padded w (pos n) = padded w (show_ℕ n)
show_padded w (negsuc n) = b'-' ∷ padded (w - 1) (show_ℕ (suc n))

-- `%.3f` of a number of thousandths.
unfoldable pub show_thousandths : ℕ → Text
unfolding show_ℕ padded
show_thousandths n = show_ℕ (n / 1_000) ++ b'.' ∷ padded 3 (show_ℕ (n % 1_000))

unfoldable pub show_thousandths_ℤ : ℤ → Text
unfolding show_thousandths
show_thousandths_ℤ (pos n) = show_thousandths n
show_thousandths_ℤ (negsuc n) = b'-' ∷ show_thousandths (suc n)

atoi_reads :
    (atoi (codes "42") ≡ pos 42)
    × (atoi (codes " -1x") ≡ pos 0 -ℤ pos 1)
    × (atoi (codes "x") ≡ pos 0)
unfolding atoi ◌-ℤ◌
atoi_reads = (refl, refl, refl)

shown :
    (show_ℤ (negsuc 1_204) ≡ codes "-1205")
    × (show_padded 8 (pos 251) ≡ codes "00000251")
    × (show_padded 3 (negsuc 4) ≡ codes "-05")
    × (show_thousandths 62_007 ≡ codes "62.007")
unfolding show_ℤ show_padded show_thousandths
shown = (refl, refl, refl, refl)
