-- ===== src/Common/Totals.antt =====
-- The total of a measure over a map's values, and maps in which no key stands twice.
use Prim.Native.Nat.{ℕ, ◌+◌}
use mathlib.Core.Path.{◌≡◌, refl, ap}
use mathlib.Core.Bool.{false}
use mathlib.Core.Option.{none, some}
use mathlib.Core.List.{List, [], ◌∷◌}
use native.Mathlib.Omega.{arith}
use mathlib.Core.Logic.{inl, inr}
use moqtopus.Common.Tests.{◌==◌, Bool-cases, ==→eq}
use moqtopus.Common.Maps.{find, insert, erase, find-insert, find-erase}

module _ {ℓ} {V : Type ℓ} where
  abbrev pub IsKeyed : List (ℕ × V) → Type ℓ
  IsKeyed [] = Unit
  IsKeyed ((k, v) ∷ m) = (find k m ≡ none) × IsKeyed m

  find-none-insert :
      (j k : ℕ) (v : V) (m : List (ℕ × V))
      → find j m ≡ none
      → (k == j) ≡ false
      → find j (insert k v m) ≡ none
  find-none-insert j k v m e d = rw (find-insert k j v m, d) e

  find-none-erase : (j k : ℕ) (m : List (ℕ × V)) → find j m ≡ none → find j (erase k m) ≡ none
  find-none-erase j k m e = ground (arith, e, find-erase k j m)

  pub IsKeyed-insert : (k : ℕ) (v : V) (m : List (ℕ × V)) → IsKeyed m → IsKeyed (insert k v m)
  IsKeyed-insert k v [] h = (refl, tt)
  IsKeyed-insert k v ((j, w) ∷ m) (e, h) = elim (Bool-cases (j == k)) [
    | inl same ↦ rw same ((rw (==→eq j k same) at e), h)
    | inr other ↦ rw other (find-none-insert j k v m e (ground arith), IsKeyed-insert k v m h)
  ]

  pub IsKeyed-erase : (k : ℕ) (m : List (ℕ × V)) → IsKeyed m → IsKeyed (erase k m)
  IsKeyed-erase k [] h = tt
  IsKeyed-erase k ((j, w) ∷ m) (e, h) = elim (Bool-cases (j == k)) [
    | inl same ↦ rw same (IsKeyed-erase k m h)
    | inr other ↦ rw other (find-none-erase j k m e, IsKeyed-erase k m h)
  ]

  erase_absent : (k : ℕ) (m : List (ℕ × V)) → find k m ≡ none → erase k m ≡ m
  erase_absent k [] e = refl
  erase_absent k ((j, w) ∷ m) e = elim (Bool-cases (j == k)) [
    | inl same ↦ absurd (ground (arith, e, same))
    | inr other ↦
        rw other (ap (λ (l : List (ℕ × V)). (j, w) ∷ l) (erase_absent k m (rw other at e)))
  ]

  module _ (weigh : V → ℕ) where
    abbrev pub total : List (ℕ × V) → ℕ
    total [] = 0
    total ((k, v) ∷ m) = weigh v + total m

    abbrev pub weight_at : ℕ → List (ℕ × V) → ℕ
    weight_at k m = elim (find k m) [ none ↦ 0 | some v ↦ weigh v ]

    pub total-insert :
        (k : ℕ) (v : V) (m : List (ℕ × V))
        → total (insert k v m) + weight_at k m ≡ total m + weigh v
    total-insert k v [] = omega arith
    total-insert k v ((j, w) ∷ m) = elim (Bool-cases (j == k)) [
      | inl same ↦ rw (same, weight_at) (omega arith)
      | inr other ↦ rw (other, weight_at) (omega (arith, total-insert k v m))
    ]

    pub total-erase :
        (k : ℕ) (m : List (ℕ × V)) → IsKeyed m → total (erase k m) + weight_at k m ≡ total m
    total-erase k [] h = refl
    total-erase k ((j, w) ∷ m) (e, h) = elim (Bool-cases (j == k)) [
      | inl same ↦
          let absent : find k m ≡ none = rw (==→eq j k same) at e in
          rw (same, erase_absent k m absent, weight_at) (omega arith)
      | inr other ↦ rw (other, weight_at) (omega (arith, total-erase k m h))
    ]
