-- ===== src/Common/Bits.antt =====
-- Facts about `|` and `&`: a disjoint low byte is a sum, and tables checked by evaluation.
use Prim.Native.Nat.{ℕ, zero, suc, ◌+◌, ◌*◌, ◌/◌, ◌^◌, ◌≤◌, ◌<◌, max, bit_or}
use Prim.Native.Nat.{digits, bit_or-bitwise}
use mathlib.Core.Path.{◌≡◌, refl, ap}
use mathlib.Core.Logic.{◌⊎◌, inl, inr}
use mathlib.Core.Bool.{Bool, true, ◌&&◌}
use native.Mathlib.Omega.{arith}
use native.Mathlib.Nat.{le_refl, pow-suc}

-- `a | b` on binary digits, with enough rounds for `a`.
abbrev or_rounds : ℕ → ℕ → ℕ → ℕ
or_rounds n a b = digits (λ y. y) max n a b

or_rounds-zero : (n a : ℕ) → a ≤ n → or_rounds n a 0 ≡ a
or_rounds-zero zero zero h = refl
or_rounds-zero (suc n) zero h = refl
or_rounds-zero zero (suc a) h = absurd (omega arith)
or_rounds-zero (suc n) (suc a) h = omega (arith, or_rounds-zero n (suc a / 2))

-- An even left operand leaves the lowest digit of the right one alone.
or_rounds-double :
    (half b n y : ℕ)
    → y ≡ 2 * half
    → y ≤ n
    → ((k : ℕ) → half ≤ k → or_rounds k half (b / 2) ≡ half + b / 2)
    → or_rounds n y b ≡ y + b
or_rounds-double half b zero zero e h rest = omega arith
or_rounds-double half b (suc n) zero e h rest = omega arith
or_rounds-double half b zero (suc y) e h rest = absurd (omega arith)
or_rounds-double half b (suc n) (suc y) e h rest =
    let halved : suc y / 2 ≡ half = omega arith in rw (or_rounds, halved) (omega (arith, rest n))

-- `a << k` and `b` of `k` bits have no digit in common.
or_rounds-shift :
    (k a b n : ℕ) → b < 2 ^ k → a * 2 ^ k ≤ n → or_rounds n (a * 2 ^ k) b ≡ a * 2 ^ k + b
or_rounds-shift zero a b n small h = ground (arith, or_rounds-zero n a)
or_rounds-shift (suc k) a b n small h =
    let twice : a * 2 ^ suc k ≡ 2 * (a * 2 ^ k) =
      omega (arith, pow-suc 2 k, ap (λ (t : ℕ). a * t) (pow-suc 2 k)) in
    or_rounds-double (a * 2 ^ k) b n (a * 2 ^ suc k) twice h
      (λ rounds enough. or_rounds-shift k a (b / 2) rounds (omega (arith, pow-suc 2 k)) enough)

-- `(a << 8) | b`, for a byte `b`.
pub or_byte : (a b : ℕ) → b < 256 → bit_or (a * 256) b ≡ a * 256 + b
or_byte a b h = simp bit_or-bitwise (or_rounds-shift 8 a b (a * 2 ^ 8) h (le_refl _))

first_or_later : (first x : ℕ) → first ≤ x → (x ≡ first) ⊎ (suc first ≤ x)
first_or_later first x above = omega arith

-- The test passes on `count` numbers from `first` on.
unfoldable pub passes_from : (test : ℕ → Bool) (first count : ℕ) → Bool
passes_from test first zero = true
passes_from test first (suc count) = passes_from test (suc first) count && test first

passes_from→passes :
    (test : ℕ → Bool) (first count x : ℕ)
    → first ≤ x
    → x < first + count
    → passes_from test first count ≡ true
    → test x ≡ true
unfolding passes_from
passes_from→passes test first zero x above below checked = absurd (omega arith)
passes_from→passes test first (suc count) x above below checked =
    elim (first_or_later first x above) [
      | inl same ↦ rw same (ground arith)
      | inr later ↦ passes_from→passes test (suc first) count x later (omega arith) (ground arith)
    ]

-- A table: every number below `size` passes the test.
unfoldable pub all_below : ℕ → (ℕ → Bool) → Bool
all_below size test = passes_from test 0 size

pub all_below_sound :
    (size : ℕ) (test : ℕ → Bool) (x : ℕ) → all_below size test ≡ true → x < size → test x ≡ true
unfolding all_below
all_below_sound size test x checked below =
    passes_from→passes test 0 size x (omega arith) (omega arith) checked
