-- ===== src/Common/BTree.antt =====
-- `BTreeMap` with numeric keys: an association list in ascending order of the keys.
use Prim.Native.Nat.{ℕ}
use mathlib.Core.Path.{◌≡◌, refl}
use mathlib.Core.Bool.{false}
use mathlib.Core.Option.{Option, none, some}
use mathlib.Core.List.{List, [], ◌∷◌}
use native.Mathlib.Omega.{arith}
use powerlink_rs.Common.Tests.{ltb, ◌==◌, if◌then◌else◌}

module _ {ℓ} {V : Type ℓ} where
  unfoldable pub get : ℕ → List (ℕ × V) → Option V
  get k [] = none
  get k ((j, v) ∷ m) = if k == j then some v else get k m

  unfoldable pub insert : ℕ → V → List (ℕ × V) → List (ℕ × V)
  insert k v [] = (k, v) ∷ []
  insert k v ((j, w) ∷ m) =
      if k == j then (k, v) ∷ m else if ltb k j then (k, v) ∷ (j, w) ∷ m else (j, w) ∷ insert k v m

  -- A write through `get_mut`: a missing key changes nothing.
  unfoldable pub put : ℕ → V → List (ℕ × V) → List (ℕ × V)
  put k v [] = []
  put k v ((j, w) ∷ m) = if k == j then (j, v) ∷ m else (j, w) ∷ put k v m

  pub get-insert :
      (i k : ℕ) (v : V) (m : List (ℕ × V))
      → get i (insert k v m) ≡ (if i == k then some v else get i m)
  unfolding get insert
  get-insert i k v [] = refl
  get-insert i k v ((j, w) ∷ m) = ground (arith, get-insert i k v m)

  pub get-put_self :
      (k : ℕ) (v w : V) (m : List (ℕ × V)) → get k m ≡ some w → get k (put k v m) ≡ some v
  unfolding get put
  get-put_self k v w [] e = cc
  get-put_self k v w ((j, x) ∷ m) e = ground (arith, get-put_self k v w m)

  pub get-put_ne :
      (i k : ℕ) (v : V) (m : List (ℕ × V)) → (i == k) ≡ false → get i (put k v m) ≡ get i m
  unfolding get put
  get-put_ne i k v [] e = refl
  get-put_ne i k v ((j, x) ∷ m) e = ground (arith, get-put_ne i k v m)
