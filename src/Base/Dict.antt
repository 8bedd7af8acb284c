-- ===== src/Base/Dict.antt =====
-- A Go map with string keys is an association list. Where the code ranges over a map the list's
-- order stands for the order of that iteration, which Go leaves open.
use mathlib.Core.Path.{◌≡◌, refl}
use mathlib.Core.List.{List, [], ◌∷◌}
use mathlib.Core.Option.{Option, none, some}
use native.Mathlib.Omega.{arith}
use voiceagent.Base.Tests.{if◌then◌else◌}
use voiceagent.Base.Texts.{Text, same, same_iff}

module _ {ℓ} {V : Type ℓ} where
  -- v, ok := m[k]
  unfoldable pub get : Text → List (Text × V) → Option V
  get k [] = none
  get k ((j, v) ∷ m) = if same j k then some v else get k m

  -- m[k] = v
  unfoldable pub put : Text → V → List (Text × V) → List (Text × V)
  put k v [] = (k, v) ∷ []
  put k v ((j, w) ∷ m) = if same j k then (k, v) ∷ m else (j, w) ∷ put k v m

  -- delete(m, k)
  unfoldable pub del : Text → List (Text × V) → List (Text × V)
  del k [] = []
  del k ((j, w) ∷ m) = if same j k then del k m else (j, w) ∷ del k m

  pub get-put :
      (k j : Text) (v : V) (m : List (Text × V))
      → get j (put k v m) ≡ (if same k j then some v else get j m)
  unfolding get put
  get-put k j v [] = refl
  get-put k j v ((i, w) ∷ m) =
      ground (arith, same_iff k j, same_iff i k, same_iff i j, get-put k j v m)

  pub get-del :
      (k j : Text) (m : List (Text × V)) → get j (del k m) ≡ (if same k j then none else get j m)
  unfolding get del
  get-del k j [] = ground arith
  get-del k j ((i, w) ∷ m) = ground (arith, same_iff k j, same_iff i k, same_iff i j, get-del k j m)
