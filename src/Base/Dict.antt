-- ===== src/Base/Dict.antt =====
-- `dict` with text keys: an association list in the order of insertion, each key once.
use mathlib.Core.Path.{◌≡◌, refl}
use mathlib.Core.Option.{Option, none, some}
use mathlib.Core.List.{List, [], ◌∷◌}
use Prim.Native.String.{String}
use native.Mathlib.Omega.{arith}
use text.Mathlib.Text.{◌==◌ as text_eq}
use text.Mathlib.TextEquality.{eq_iff as text_iff}
use a_stock_lens.Base.Tests.{if◌then◌else◌}

module _ {ℓ} {V : Type ℓ} where
  -- `d.get(k)`
  unfoldable pub get : String → List (String × V) → Option V
  get k [] = none
  get k ((j, v) ∷ d) = if text_eq j k then some v else get k d

  -- `d[k] = v`
  unfoldable pub put : String → V → List (String × V) → List (String × V)
  put k v [] = (k, v) ∷ []
  put k v ((j, w) ∷ d) = if text_eq j k then (j, v) ∷ d else (j, w) ∷ put k v d

  -- `d.pop(k)`
  unfoldable pub remove : String → List (String × V) → List (String × V)
  remove k [] = []
  remove k ((j, v) ∷ d) = if text_eq j k then d else (j, v) ∷ remove k d

  -- `d.update(pairs)`, a pair at a time.
  unfoldable pub put_all : List (String × V) → List (String × V) → List (String × V)
  put_all [] d = d
  put_all ((k, v) ∷ pairs) d = put_all pairs (put k v d)

  abbrev pub keys : List (String × V) → List String
  keys [] = []
  keys ((k, v) ∷ d) = k ∷ keys d

  abbrev pub values : List (String × V) → List V
  values [] = []
  values ((k, v) ∷ d) = v ∷ values d

  pub get-put :
      (k j : String) (v : V) (d : List (String × V))
      → get j (put k v d) ≡ (if text_eq k j then some v else get j d)
  unfolding get put
  get-put k j v [] = refl
  get-put k j v ((i, w) ∷ d) =
      ground (arith, text_iff k j, text_iff i k, text_iff i j, get-put k j v d)
