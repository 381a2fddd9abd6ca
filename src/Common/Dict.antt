-- ===== src/Common/Dict.antt =====
-- Python's `dict` with text keys, in insertion order: a write to a known key keeps its place.
use agent_roles.Common.Lists.{elem, is_unique}
use agent_roles.Common.Tests.{◌=ₛ◌, if◌then◌else◌, is_some}
use Prim.Native.String.{String}
use mathlib.Core.Path.{◌≡◌, refl}
use mathlib.Core.Logic.{◌≢◌}
use mathlib.Core.Bool.{Bool, true}
use mathlib.Core.Option.{Option, none, some}
use mathlib.Core.List.{List, [], ◌∷◌}
use native.Mathlib.Omega.{arith}
use text.Mathlib.TextEquality.{eq_iff}
use text.Mathlib.TextPositions.{eq_refl}

abbrev pub Dict {ℓ} : Type ℓ → Type ℓ
Dict V = List (String × V)

module _ {ℓ} {V : Type ℓ} where
  -- `d.get(k)`
  unfoldable pub get : Dict V → String → Option V
  get [] k = none
  get ((j, v) ∷ d) k = if j =ₛ k then some v else get d k

  -- `d[k] = v`
  unfoldable pub put : Dict V → String → V → Dict V
  put [] k v = (k, v) ∷ []
  put ((j, w) ∷ d) k v = if j =ₛ k then (j, v) ∷ d else (j, w) ∷ put d k v

  -- `list(d)` and `list(d.values())`
  abbrev pub keys : Dict V → List String
  keys [] = []
  keys ((j, v) ∷ d) = j ∷ keys d

  abbrev pub values : Dict V → List V
  values [] = []
  values ((j, v) ∷ d) = v ∷ values d

  -- `k in d`
  abbrev pub contains : Dict V → String → Bool
  contains d k = is_some (get d k)

  pub get-put :
      (d : Dict V) (k : String) (v : V) (j : String)
      → get (put d k v) j ≡ (if k =ₛ j then some v else get d j)
  unfolding get put
  get-put [] k v j = refl
  get-put ((i, w) ∷ d) k v j = ground (arith, eq_iff k j, eq_iff i k, eq_iff i j, get-put d k v j)

  pub get-put_self : (d : Dict V) (k : String) (v : V) → get (put d k v) k ≡ some v
  get-put_self d k v = ground (arith, get-put d k v k, eq_refl k)

  pub get-put_ne :
      (d : Dict V) (k : String) (v : V) (j : String) → k ≢ j → get (put d k v) j ≡ get d j
  get-put_ne d k v j n = ground (arith, get-put d k v j, eq_iff k j)

  pub elem-keys : (d : Dict V) (k : String) → elem k (keys d) ≡ contains d k
  unfolding get
  elem-keys [] k = refl
  elem-keys ((j, v) ∷ d) k = ground (arith, elem-keys d k)

  -- A write adds the key if it is new.
  pub elem-keys-put :
      (d : Dict V) (k : String) (v : V) (j : String)
      → elem j (keys (put d k v)) ≡ (if k =ₛ j then true else elem j (keys d))
  elem-keys-put d k v j = ground (arith, elem-keys (put d k v) j, elem-keys d j, get-put d k v j)

  -- The keys of a dict stay distinct.
  pub put_unique :
      (d : Dict V) (k : String) (v : V)
      → is_unique (keys d) ≡ true
      → is_unique (keys (put d k v)) ≡ true
  unfolding put
  put_unique [] k v u = refl
  put_unique ((j, w) ∷ d) k v u =
      ground (arith, put_unique d k v, elem-keys-put d k v j, eq_iff j k, eq_iff k j)

pub get-empty {ℓ} : {V : Type ℓ} (k : String) → get {V = V} [] k ≡ none
unfolding get
get-empty k = refl
