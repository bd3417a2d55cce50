-- ===== src/Common/Dict.antt =====
-- Byte strings compared, and maps keyed by them: a `HashMap` as its entries, in the order of iteration.
pub mod Size
use Prim.Native.Nat.{ℕ}
use mathlib.Core.Path.{◌≡◌, refl, sym, ap, ap₂, subst}
use mathlib.Core.Logic.{◌≢◌, inl, inr}
use mathlib.Core.Bool.{Bool, true, false, ◌&&◌}
use mathlib.Core.List.{List, [], ◌∷◌}
use mathlib.Core.Option.{Option, none, some}
use peeroxide.Common.Tests.{◌==◌, ==_iff, ==_refl, if◌then◌else◌, Bool-cases}

abbrev pub same_bytes : List ℕ → List ℕ → Bool
same_bytes [] [] = true
same_bytes [] (b ∷ bs) = false
same_bytes (a ∷ xs) [] = false
same_bytes (a ∷ xs) (b ∷ bs) = (a == b) && same_bytes xs bs

pub same_bytes_refl : (xs : List ℕ) → same_bytes xs xs ≡ true
same_bytes_refl [] = refl
same_bytes_refl (x ∷ xs) = rw (==_refl x) (same_bytes_refl xs)

pub both_true : (a b : Bool) → (a && b) ≡ true → (a ≡ true) × (b ≡ true)
both_true true b h = (refl, h)
both_true false b h = absurd cc

pub same_bytes_eq : (xs ys : List ℕ) → same_bytes xs ys ≡ true → xs ≡ ys
same_bytes_eq [] [] h = refl
same_bytes_eq [] (b ∷ bs) h = absurd cc
same_bytes_eq (a ∷ xs) [] h = absurd cc
same_bytes_eq (a ∷ xs) (b ∷ bs) h =
    let (p, q) = both_true _ _ h in ap₂ (λ c cs. c ∷ cs) ((==_iff a b).0 p) (same_bytes_eq xs bs q)

pub apart_bytes : (j k : List ℕ) → same_bytes j k ≡ false → j ≢ k
apart_bytes j k e q =
    let t : same_bytes j k ≡ true = subst (λ i. same_bytes j i ≡ true) q (same_bytes_refl j) in cc

abbrev pub Dict {ℓ} : Type ℓ → Type ℓ
Dict V = List (List ℕ × V)

module _ {ℓ} {V : Type ℓ} where
  abbrev pub lookup : List ℕ → Dict V → Option V
  lookup k [] = none
  lookup k (e ∷ d) = if same_bytes k e.0 then some e.1 else lookup k d

  abbrev pub contains : List ℕ → Dict V → Bool
  contains k [] = false
  contains k (e ∷ d) = if same_bytes k e.0 then true else contains k d

  abbrev pub insert : List ℕ → V → Dict V → Dict V
  insert k v [] = (k, v) ∷ []
  insert k v (e ∷ d) = if same_bytes k e.0 then (k, v) ∷ d else e ∷ insert k v d

  abbrev pub erase : List ℕ → Dict V → Dict V
  erase k [] = []
  erase k (e ∷ d) = if same_bytes k e.0 then d else e ∷ erase k d

  pub lookup-insert_self : (k : List ℕ) (v : V) (d : Dict V) → lookup k (insert k v d) ≡ some v
  lookup-insert_self k v [] = rw (same_bytes_refl k) refl
  lookup-insert_self k v (e ∷ d) = elim (Bool-cases (same_bytes k e.0)) [
    | inl p ↦ rw (p, same_bytes_refl k) refl
    | inr p ↦ rw (p, p) (lookup-insert_self k v d)
  ]

  pub lookup-insert_ne :
      (j k : List ℕ) (v : V) (d : Dict V) → j ≢ k → lookup j (insert k v d) ≡ lookup j d
  lookup-insert_ne j k v [] h = elim (Bool-cases (same_bytes j k)) [
    | inl p ↦ absurd (h (same_bytes_eq j k p))
    | inr p ↦ rw p refl
  ]
  lookup-insert_ne j k v (e ∷ d) h = elim (Bool-cases (same_bytes k e.0)) [
    | inl p ↦ elim (Bool-cases (same_bytes j k)) [
      | inl q ↦ absurd (h (same_bytes_eq j k q))
      | inr q ↦ rw (p, sym (same_bytes_eq k e.0 p), q) refl
    ]
    | inr p ↦ rw p (ap (λ o. if same_bytes j e.0 then some e.1 else o) (lookup-insert_ne j k v d h))
  ]
