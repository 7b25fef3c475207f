-- ===== src/Common/Keyed.antt =====
-- Maps whose keys are compared by a test, as association lists: `std::map` with a pair for a key.
use mathlib.Core.Path.{◌≡◌, refl}
use mathlib.Core.Logic.{inl, inr}
use mathlib.Core.Bool.{Bool}
use mathlib.Core.Option.{Option, none, some}
use mathlib.Core.List.{List, [], ◌∷◌}
use moqtopus.Common.Tests.{if◌then◌else◌, Bool-cases}

module _ {ℓ κ} {K : Type ℓ} {V : Type κ} (same : K → K → Bool) where
  unfoldable pub find_by : K → List (K × V) → Option V
  find_by k [] = none
  find_by k ((j, v) ∷ m) = if same j k then some v else find_by k m

  unfoldable pub insert_by : K → V → List (K × V) → List (K × V)
  insert_by k v [] = (k, v) ∷ []
  insert_by k v ((j, w) ∷ m) = if same j k then (j, v) ∷ m else (j, w) ∷ insert_by k v m

  pub erase_by : K → List (K × V) → List (K × V)
  erase_by k [] = []
  erase_by k ((j, w) ∷ m) = if same j k then erase_by k m else (j, w) ∷ erase_by k m

  pub find_by-erase_by : (k : K) (m : List (K × V)) → find_by k (erase_by k m) ≡ none
  unfolding find_by erase_by
  find_by-erase_by k [] = refl
  find_by-erase_by k ((j, w) ∷ m) = elim (Bool-cases (same j k)) [
    | inl alike ↦ rw alike (find_by-erase_by k m)
    | inr differs ↦ rw (differs, find_by, differs) (find_by-erase_by k m)
  ]
