-- ===== src/Common/KeyMap.antt =====
-- `HashMap<K, V>` for a key with an equality test, as an association list with one entry for each
-- key.
use proxy.Common.Tests.{if◌then◌else◌}
use mathlib.Core.Path.{◌≡◌, refl}
use mathlib.Core.Logic.{◌↔◌}
use mathlib.Core.Bool.{Bool, true, false, not, ◌&&◌, ◌||◌}
use mathlib.Core.Option.{Option, none, some}
use mathlib.Core.List.{List, [], ◌∷◌}
use native.Mathlib.Omega.{arith}

module _ {ℓ κ} {K : Type ℓ} {V : Type κ} (eq : K → K → Bool) where
  unfoldable pub get : K → List (K × V) → Option V
  get k [] = none
  get k ((j, v) ∷ m) = if eq j k then some v else get k m

  -- `HashMap::insert`.
  unfoldable pub insert : K → V → List (K × V) → List (K × V)
  insert k v [] = (k, v) ∷ []
  insert k v ((j, w) ∷ m) = if eq j k then (j, v) ∷ m else (j, w) ∷ insert k v m

  -- `HashMap::remove`.
  unfoldable pub remove : K → List (K × V) → List (K × V)
  remove k [] = []
  remove k ((j, v) ∷ m) = let rest = remove k m in if eq j k then rest else (j, v) ∷ rest

  -- `HashMap::contains_key`.
  unfoldable pub has : K → List (K × V) → Bool
  has k [] = false
  has k ((j, v) ∷ m) = eq j k || has k m

module _ {ℓ κ} {K : Type ℓ} {V : Type κ} (eq : K → K → Bool)
    (eq_iff : (a b : K) → (eq a b ≡ true) ↔ (a ≡ b)) where
  pub has-insert :
      (k j : K) (v : V) (m : List (K × V)) → has eq j (insert eq k v m) ≡ (eq k j || has eq j m)
  unfolding has insert
  has-insert k j v [] = ground arith
  has-insert k j v ((i, w) ∷ m) =
      ground (arith, eq_iff i k, eq_iff i j, eq_iff k j, has-insert k j v m)

  pub has-remove :
      (k j : K) (m : List (K × V)) → has eq j (remove eq k m) ≡ (not (eq k j) && has eq j m)
  unfolding has remove
  has-remove k j [] = ground arith
  has-remove k j ((i, w) ∷ m) = ground (arith, eq_iff i k, eq_iff i j, eq_iff k j, has-remove k j m)

  pub has-get-none : (k : K) (m : List (K × V)) → get eq k m ≡ none → has eq k m ≡ false
  unfolding has get
  has-get-none k [] h = refl
  has-get-none k ((i, w) ∷ m) h = ground (arith, has-get-none k m)
