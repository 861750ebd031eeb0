-- ===== src/Shared/Dict.antt =====
-- Python's dict with text keys, in insertion order.
use Prim.Native.Nat.{ℕ, zero, suc, ◌≤◌, ◌+◌}
use Prim.Native.String.{String}
use mathlib.Core.Path.{◌≡◌, refl}
use mathlib.Core.Bool.{Bool, true}
use mathlib.Core.Option.{Option, none, some}
use mathlib.Core.List.{List, [], ◌∷◌}
use native.Mathlib.Omega.{arith}
use text.Mathlib.Text.{◌==◌ as str_eq}
use text.Mathlib.TextEquality.{eq_iff}
use movie_api.Shared.Tests.{if◌then◌else◌, is_some}
use movie_api.Shared.Rows.{length}

abbrev pub Dict {ℓ} : Type ℓ → Type ℓ
Dict V = List (String × V)

module _ {ℓ} {V : Type ℓ} where
  -- `d.get(k)`
  unfoldable pub lookup : String → Dict V → Option V
  lookup k [] = none
  lookup k ((j, v) ∷ d) = if str_eq j k then some v else lookup k d

  -- `d[k] = v`: a key keeps its place, and a new one goes last
  unfoldable pub put : String → V → Dict V → Dict V
  put k v [] = (k, v) ∷ []
  put k v ((j, w) ∷ d) = if str_eq j k then (k, v) ∷ d else (j, w) ∷ put k v d

  -- `d.pop(k, None)`
  unfoldable pub remove : String → Dict V → Dict V
  remove k [] = []
  remove k ((j, w) ∷ d) = let rest = remove k d in if str_eq j k then rest else (j, w) ∷ rest

  -- the entries that pass a test
  pub keep : (V → Bool) → Dict V → Dict V
  keep p [] = []
  keep p ((j, w) ∷ d) = let rest = keep p d in if p w then (j, w) ∷ rest else rest

  -- `for key in list(d)[:n]: del d[key]`
  pub drop : ℕ → Dict V → Dict V
  drop zero d = d
  drop (suc n) [] = []
  drop (suc n) (e ∷ d) = drop n d

  pub lookup-put :
      (k j : String) (v : V) (d : Dict V)
      → lookup j (put k v d) ≡ (if str_eq k j then some v else lookup j d)
  unfolding lookup put
  lookup-put k j v [] = refl
  lookup-put k j v ((i, w) ∷ d) =
      ground (arith, eq_iff k j, eq_iff i k, eq_iff i j, lookup-put k j v d)

  pub lookup-remove :
      (k j : String) (d : Dict V)
      → lookup j (remove k d) ≡ (if str_eq k j then none else lookup j d)
  unfolding lookup remove
  lookup-remove k j [] = ground arith
  lookup-remove k j ((i, w) ∷ d) =
      ground (arith, eq_iff k j, eq_iff i k, eq_iff i j, lookup-remove k j d)

  pub length-put_old :
      (k : String) (v : V) (d : Dict V)
      → is_some (lookup k d) ≡ true
      → length (put k v d) ≡ length d
  unfolding lookup put
  length-put_old k v [] e = cc
  length-put_old k v ((i, w) ∷ d) e = ground (arith, length-put_old k v d)

  pub length-put-le : (k : String) (v : V) (d : Dict V) → length (put k v d) ≤ length d + 1
  unfolding put
  length-put-le k v [] = omega arith
  length-put-le k v ((i, w) ∷ d) = ground (arith, length-put-le k v d)

pub ruleset dict_laws = (lookup-put, lookup-remove)
