-- ===== src/Common/Map.antt =====
-- `std::unordered_map` as an association list, and the counts of keys in lists and maps. Keys come
-- with their equality test.
use Prim.Native.Nat.{ℕ, suc, ◌+◌, ◌-◌, ◌<◌}
use mathlib.Core.Path.{◌≡◌, refl, ap, ◌∙◌}
use mathlib.Core.Logic.{◌↔◌}
use mathlib.Core.Bool.{Bool, true}
use mathlib.Core.Option
use mathlib.Core.Option.{Option, none, some}
use mathlib.Core.List.{List, [], ◌∷◌, ◌++◌}
use native.Mathlib.Omega.{arith}
use embodied_agent_runtime.Common.Tests.{if◌then◌else◌, is_some, ◌==◌, ==_iff}
use embodied_agent_runtime.Common.Lists.{length}
use embodied_agent_runtime.Common.Text.{Text, text_eq, text_eq_iff}

pub record Key (K : Type 0) : Type 0 where
  pub same : K → K → Bool
  pub same_iff : (a b : K) → (same a b ≡ true) ↔ (a ≡ b)

instance abbrev pub text_key : Key Text
text_key = record { same = text_eq; same_iff = text_eq_iff }

instance abbrev pub nat_key : Key ℕ
nat_key = record { same = ◌==◌; same_iff = ==_iff }

module _ {K : Type 0} ⦃key : Key K⦄ where
  -- How often a key stands in a list.
  unfoldable pub count : K → List K → ℕ
  count k [] = 0
  count k (x ∷ xs) = if key.same k x then suc (count k xs) else count k xs

  -- The list without the first `k`, and without all of them.
  unfoldable pub remove_first : K → List K → List K
  remove_first k [] = []
  remove_first k (x ∷ xs) = if key.same k x then xs else x ∷ remove_first k xs

  unfoldable pub remove_all : K → List K → List K
  remove_all k [] = []
  remove_all k (x ∷ xs) = let rest = remove_all k xs in if key.same k x then rest else x ∷ rest

  pub count-append : (k : K) (xs ys : List K) → count k (xs ++ ys) ≡ count k xs + count k ys
  unfolding count
  count-append k [] ys = omega arith
  count-append k (x ∷ xs) ys = ground (arith, count-append k xs ys)

  pub count-remove_first :
      (j k : K) (xs : List K)
      → count j (remove_first k xs) ≡ (if key.same j k then count j xs - 1 else count j xs)
  unfolding count remove_first
  count-remove_first j k [] = ground arith
  count-remove_first j k (x ∷ xs) =
      ground
        (arith, key.same_iff j k, key.same_iff k x, key.same_iff j x, count-remove_first j k xs)

  pub count-remove_all :
      (j k : K) (xs : List K) → count j (remove_all k xs) ≡ (if key.same j k then 0 else count j xs)
  unfolding count remove_all
  count-remove_all j k [] = ground arith
  count-remove_all j k (x ∷ xs) =
      ground (arith, key.same_iff j k, key.same_iff k x, key.same_iff j x, count-remove_all j k xs)

  pub length-remove_first :
      (k : K) (xs : List K) → 0 < count k xs → length (remove_first k xs) + 1 ≡ length xs
  unfolding count remove_first
  length-remove_first k [] h = omega arith
  length-remove_first k (x ∷ xs) h = ground (arith, length-remove_first k xs)

  pub length-remove_all : (k : K) (xs : List K) → length (remove_all k xs) + count k xs ≡ length xs
  unfolding count remove_all
  length-remove_all k [] = omega arith
  length-remove_all k (x ∷ xs) = ground (arith, length-remove_all k xs)

module _ {K : Type 0} ⦃key : Key K⦄ {V : Type 0} where
  abbrev pub keys : List (K × V) → List K
  keys [] = []
  keys ((k, v) ∷ m) = k ∷ keys m

  unfoldable pub find : K → List (K × V) → Option V
  find k [] = none
  find k ((j, v) ∷ m) = if key.same k j then some v else find k m

  -- `erase(key)`.
  unfoldable pub erase : K → List (K × V) → List (K × V)
  erase k [] = []
  erase k ((j, v) ∷ m) = let rest = erase k m in if key.same k j then rest else (j, v) ∷ rest

  -- `emplace`: an entry that is there already stays.
  unfoldable pub emplace : K → V → List (K × V) → List (K × V)
  unfolding find
  emplace k v m = if is_some (find k m) then m else (k, v) ∷ m

  -- A change of the value through the iterator that `find` returned.
  unfoldable pub modify : K → (V → V) → List (K × V) → List (K × V)
  modify k f [] = []
  modify k f ((j, v) ∷ m) = if key.same k j then (j, f v) ∷ m else (j, v) ∷ modify k f m

  pub find-erase :
      (j k : K) (m : List (K × V)) → find j (erase k m) ≡ (if key.same j k then none else find j m)
  unfolding find erase
  find-erase j k [] = ground arith
  find-erase j k ((i, v) ∷ m) =
      ground (arith, key.same_iff j k, key.same_iff k i, key.same_iff j i, find-erase j k m)

  pub find-emplace :
      (j k : K) (v : V) (m : List (K × V))
      → find j (emplace k v m)
        ≡ (if is_some (find k m) then find j m else if key.same j k then some v else find j m)
  unfolding find emplace
  find-emplace j k v m = ground arith

  pub find-modify :
      (j k : K) (f : V → V) (m : List (K × V))
      → find j (modify k f m) ≡ (if key.same j k then Option.map f (find j m) else find j m)
  unfolding find modify
  find-modify j k f [] = ground arith
  find-modify j k f ((i, v) ∷ m) =
      ground (arith, key.same_iff j k, key.same_iff k i, key.same_iff j i, find-modify j k f m)

  -- A key is counted exactly if it is found.
  pub find-count : (k : K) (m : List (K × V)) → (is_some (find k m) ≡ true) ↔ (0 < count k (keys m))
  unfolding find count
  find-count k [] = ground arith
  find-count k ((j, v) ∷ m) = ground (arith, find-count k m)

  pub keys-erase : (k : K) (m : List (K × V)) → keys (erase k m) ≡ remove_all k (keys m)
  unfolding erase remove_all
  keys-erase k [] = refl
  keys-erase k ((j, v) ∷ m) = ground (arith, keys-erase k m)

  pub keys-modify : (k : K) (f : V → V) (m : List (K × V)) → keys (modify k f m) ≡ keys m
  unfolding modify
  keys-modify k f [] = refl
  keys-modify k f ((j, v) ∷ m) = ground (arith, keys-modify k f m)

  pub length-keys : (m : List (K × V)) → length (keys m) ≡ length m
  length-keys [] = refl
  length-keys ((j, v) ∷ m) = ap suc (length-keys m)

  pub count-erase :
      (j k : K) (m : List (K × V))
      → count j (keys (erase k m)) ≡ (if key.same j k then 0 else count j (keys m))
  count-erase j k m = ap (count j) (keys-erase k m) ∙ count-remove_all j k (keys m)

  pub length-erase : (k : K) (m : List (K × V)) → length (erase k m) + count k (keys m) ≡ length m
  length-erase k m = omega (
    arith,
    ap length (keys-erase k m),
    length-keys (erase k m),
    length-keys m,
    length-remove_all k (keys m),
  )

  pub find-erase-none : (j k : K) (m : List (K × V)) → find j m ≡ none → find j (erase k m) ≡ none
  find-erase-none j k m h = ground (arith, find-erase j k m)
