-- ===== src/Prelude/Dict.antt =====
-- Go's maps as association lists in which a key stands once, and the tests of equality that keys
-- come with.
use Prim.Native.Nat.{ℕ, suc}
use Prim.Native.String.{String}
use mathlib.Core.Path.{◌≡◌}
use mathlib.Core.Logic.{◌↔◌}
use mathlib.Core.Bool.{Bool, true}
use mathlib.Core.List.{List, [], ◌∷◌}
use mathlib.Core.Option.{Option, none, some}
use native.Mathlib.Omega.{arith}
use text.Mathlib.TextEquality.{eq_iff}
use agentapi.Prelude.Tests.{◌==◌, ==_iff, str_eq, if◌then◌else◌}

pub record Eq {ℓ} (A : Type ℓ) : Type ℓ where
  pub beq : A → A → Bool
  pub beq_iff : (a b : A) → (beq a b ≡ true) ↔ (a ≡ b)

instance abbrev pub nat_eq : Eq ℕ
nat_eq = record { beq = ◌==◌; beq_iff = ==_iff }

instance abbrev pub string_eq : Eq String
string_eq = record { beq = str_eq; beq_iff = eq_iff }

-- How often a key stands in a list.
abbrev pub count {ℓ} : {K : Type ℓ} ⦃e : Eq K⦄ → K → List K → ℕ
count k [] = 0
count ⦃e⦄ k (j ∷ js) = let rest = count k js in if e.beq j k then suc rest else rest

module _ {ℓ κ} {K : Type ℓ} {V : Type κ} ⦃e : Eq K⦄ where
  abbrev pub dict_get : K → List (K × V) → Option V
  dict_get k [] = none
  dict_get k ((j, v) ∷ m) = if e.beq j k then some v else dict_get k m

  abbrev pub dict_delete : K → List (K × V) → List (K × V)
  dict_delete k [] = []
  dict_delete k ((j, v) ∷ m) =
      let rest = dict_delete k m in if e.beq j k then rest else (j, v) ∷ rest

  abbrev pub dict_put : K → V → List (K × V) → List (K × V)
  dict_put k v m = (k, v) ∷ dict_delete k m

  abbrev pub keys : List (K × V) → List K
  keys [] = []
  keys ((k, v) ∷ m) = k ∷ keys m

  pub dict_get-delete :
      (k j : K) (m : List (K × V))
      → dict_get j (dict_delete k m) ≡ (if e.beq k j then none else dict_get j m)
  dict_get-delete k j [] = ground (arith, e.beq_iff k j)
  dict_get-delete k j ((i, v) ∷ m) =
      ground (arith, dict_get-delete k j m, e.beq_iff k j, e.beq_iff i k, e.beq_iff i j)

  pub dict_get-put :
      (k j : K) (v : V) (m : List (K × V))
      → dict_get j (dict_put k v m) ≡ (if e.beq k j then some v else dict_get j m)
  dict_get-put k j v m = ground (arith, dict_get-delete k j m)

  pub count-delete :
      (k j : K) (m : List (K × V))
      → count j (keys (dict_delete k m)) ≡ (if e.beq k j then 0 else count j (keys m))
  count-delete k j [] = ground (arith, e.beq_iff k j)
  count-delete k j ((i, v) ∷ m) =
      ground (arith, count-delete k j m, e.beq_iff k j, e.beq_iff i k, e.beq_iff i j)
