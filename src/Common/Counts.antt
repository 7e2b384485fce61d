-- ===== src/Common/Counts.antt =====
-- How many entries of a map have a value that passes a test.
use Prim.Native.Nat.{ℕ, ◌+◌, ◌<◌, ◌≤◌}
use mathlib.Core.Path.{◌≡◌, ap, subst}
use mathlib.Core.Logic.{inl, inr}
use mathlib.Core.Bool.{Bool, true}
use mathlib.Core.Option.{Option, none, some}
use mathlib.Core.List.{[], ◌∷◌}
use native.Mathlib.Omega.{arith}
use core_telegram_api.Common.Tests.{if◌then◌else◌, Bool-cases}
use core_telegram_api.Common.Equality.{Eq, ◌==◌}
use core_telegram_api.Common.Maps.{Map, find, insert, erase, Unique, erase_absent}

abbrev pub hit {κ} : {V : Type κ} → (V → Bool) → Option V → ℕ
hit p none = 0
hit p (some v) = if p v then 1 else 0

module _ {ℓ κ} {K : Type ℓ} {V : Type κ} ⦃e : Eq K⦄ (p : V → Bool) where
  unfoldable pub count : Map K V → ℕ
  count [] = 0
  count ((j, v) ∷ m) = (if p v then 1 else 0) + count m

  pub count-insert :
      (k : K) (v : V) (m : Map K V)
      → count (insert k v m) + hit p (find k m) ≡ count m + hit p (some v)
  unfolding count insert find
  count-insert k v [] = ground arith
  count-insert k v ((j, w) ∷ m) = ground (arith, count-insert k v m)

  pub count-erase :
      (k : K) (m : Map K V) → Unique m → count (erase k m) + hit p (find k m) ≡ count m
  unfolding count erase find
  count-erase k [] u = omega arith
  count-erase k ((j, w) ∷ m) u =
      ground (arith, e.beq_iff j k, count-erase k m u.1, erase_absent k m)

  pub count_pos_of_find :
      (k : K) (v : V) (m : Map K V) → find k m ≡ some v → p v ≡ true → 0 < count m
  unfolding count find
  count_pos_of_find k v [] h q = ground arith
  count_pos_of_find k v ((j, w) ∷ m) h q = ground (arith, count_pos_of_find k v m)

abbrev pub weight_at {ℓ κ} : {K : Type ℓ} {V : Type κ} → (K → V → ℕ) → K → Option V → ℕ
weight_at w k none = 0
weight_at w k (some v) = w k v

-- The sum of the weights of the entries of a map.
module _ {ℓ κ} {K : Type ℓ} {V : Type κ} ⦃e : Eq K⦄ (w : K → V → ℕ) where
  unfoldable pub tally : Map K V → ℕ
  tally [] = 0
  tally ((j, v) ∷ m) = w j v + tally m

  pub tally-insert :
      (k : K) (v : V) (m : Map K V)
      → tally (insert k v m) + weight_at w k (find k m) ≡ tally m + w k v
  unfolding tally insert find
  tally-insert k v [] = omega arith
  tally-insert k v ((j, u) ∷ m) = elim (Bool-cases (j == k)) [
    | inl same ↦
        let q : j ≡ k = (e.beq_iff j k).0 same in rw same (omega (arith, ap (λ i. w i u) q))
    | inr other ↦ rw other (omega (arith, tally-insert k v m))
  ]

  pub tally-erase :
      (k : K) (m : Map K V) → Unique m → tally (erase k m) + weight_at w k (find k m) ≡ tally m
  unfolding tally erase find
  tally-erase k [] h = omega arith
  tally-erase k ((j, u) ∷ m) h = elim (Bool-cases (j == k)) [
    | inl same ↦
        let q : j ≡ k = (e.beq_iff j k).0 same in
        let x : erase k m ≡ m = erase_absent k m (subst (λ i. find i m ≡ none) q h.0) in
        rw (same, x) (omega (arith, ap (λ i. w i u) q))
    | inr other ↦ rw other (omega (arith, tally-erase k m h.1))
  ]

  pub tally_pos : (k : K) (v : V) (m : Map K V) → find k m ≡ some v → w k v ≤ tally m
  unfolding tally find
  tally_pos k v [] h = ground (arith, h)
  tally_pos k v ((j, u) ∷ m) h = elim (Bool-cases (j == k)) [
    | inl same ↦
        let q : j ≡ k = (e.beq_iff j k).0 same in
        let x : u ≡ v = ground (arith, h, same) in omega (arith, ap (λ i. w i u) q, ap (w k) x)
    | inr other ↦ omega (arith, tally_pos k v m (ground (arith, h, other)))
  ]
