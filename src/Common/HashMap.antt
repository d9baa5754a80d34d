-- ===== src/Common/HashMap.antt =====
-- `HashMap<Arc<str>, V>` as an association list with one entry for each key.
use proxy.Common.{◌≡◌, refl, Option, none, some, List, [], ◌∷◌, ◌++◌, arith, if◌then◌else◌}
use proxy.Common.Text.{Str, str_eq, str_eq_iff, str_eq_refl}

module _ {ℓ} {V : Type ℓ} where
  unfoldable pub get : Str → List (Str × V) → Option V
  get k [] = none
  get k ((j, v) ∷ m) = if str_eq j k then some v else get k m

  -- `HashMap::insert`.
  unfoldable pub insert : Str → V → List (Str × V) → List (Str × V)
  insert k v [] = (k, v) ∷ []
  insert k v ((j, w) ∷ m) = if str_eq j k then (j, v) ∷ m else (j, w) ∷ insert k v m

module _ {ℓ} {V : Type ℓ} where
  -- `map.entry(k).or_default().push(v)`.
  unfoldable pub entry_push : Str → V → List (Str × List V) → List (Str × List V)
  entry_push k v [] = (k, v ∷ []) ∷ []
  entry_push k v ((j, vs) ∷ m) =
      if str_eq j k then (j, vs ++ v ∷ []) ∷ m else (j, vs) ∷ entry_push k v m

  -- The bucket of a key, empty where the map has none.
  unfoldable pub bucket : Str → List (Str × List V) → List V
  bucket k [] = []
  bucket k ((j, vs) ∷ m) = if str_eq j k then vs else bucket k m

  pub bucket-entry_push :
      (k j : Str) (v : V) (m : List (Str × List V))
      → bucket j (entry_push k v m) ≡ (if str_eq k j then bucket j m ++ v ∷ [] else bucket j m)
  unfolding bucket entry_push
  bucket-entry_push k j v [] = ground arith
  bucket-entry_push k j v ((i, vs) ∷ m) = ground (
    arith,
    str_eq_iff i k,
    str_eq_iff i j,
    str_eq_iff k j,
    str_eq_refl k,
    bucket-entry_push k j v m,
  )

  pub get-bucket :
      (k : Str) (m : List (Str × List V)) (vs : List V) → get k m ≡ some vs → bucket k m ≡ vs
  unfolding get bucket
  get-bucket k [] vs h = ground arith
  get-bucket k ((j, ws) ∷ m) vs h = ground (arith, get-bucket k m vs)

  pub get-bucket-none : (k : Str) (m : List (Str × List V)) → get k m ≡ none → bucket k m ≡ []
  unfolding get bucket
  get-bucket-none k [] h = refl
  get-bucket-none k ((j, ws) ∷ m) h = ground (arith, get-bucket-none k m)
