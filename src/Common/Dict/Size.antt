-- ===== src/Common/Dict/Size.antt =====
-- The entries of a map: their number, their keys.
use Prim.Native.Nat.{ℕ, ◌+◌, ◌≤◌}
use mathlib.Core.Path.{◌≡◌, refl, sym, ap, ◌∙◌}
use mathlib.Core.Bool.{true, false}
use mathlib.Core.Logic.{inl, inr}
use mathlib.Core.List.{List, [], ◌∷◌}
use mathlib.Core.Option.{none, some}
use native.Mathlib.Omega.{arith}
use peeroxide.Common.Tests.{if◌then◌else◌, Bool-cases}
use peeroxide.Common.Lists.{length, All}
use peeroxide.Common.Dict.{
  Dict, same_bytes, same_bytes_eq, same_bytes_refl, lookup, contains, insert, erase,
}

same_false_sym : (j k : List ℕ) → same_bytes j k ≡ false → same_bytes k j ≡ false
same_false_sym j k h = elim (Bool-cases (same_bytes k j)) [
  | inl p ↦
      let t : true ≡ false =
        sym (same_bytes_refl j) ∙ ap (same_bytes j) (sym (same_bytes_eq k j p)) ∙ h in
      absurd cc
  | inr p ↦ p
]

module _ {ℓ} {V : Type ℓ} where
  -- No key has two entries.
  abbrev pub Unique : Dict V → Type 0
  Unique [] = Unit
  Unique (e ∷ d) = (contains e.0 d ≡ false) × Unique d

  pub length-insert : (k : List ℕ) (v : V) (d : Dict V) → length (insert k v d) ≤ length d + 1
  length-insert k v [] = omega arith
  length-insert k v (e ∷ d) = elim (Bool-cases (same_bytes k e.0)) [
    | inl p ↦ rw p (omega arith)
    | inr p ↦ rw p (omega (arith, length-insert k v d))
  ]

  pub length-erase :
      (k : List ℕ) (d : Dict V) → contains k d ≡ true → length (erase k d) + 1 ≡ length d
  length-erase k [] h = absurd cc
  length-erase k (e ∷ d) h = elim (Bool-cases (same_bytes k e.0)) [
    | inl p ↦ rw p (omega arith)
    | inr p ↦
        let here : contains k d ≡ true = sym (ap (λ b. if b then true else contains k d) p) ∙ h in
        rw p (omega (arith, length-erase k d here))
  ]

  pub lookup-absent : (k : List ℕ) (d : Dict V) → contains k d ≡ false → lookup k d ≡ none
  lookup-absent k [] h = refl
  lookup-absent k (e ∷ d) h = elim (Bool-cases (same_bytes k e.0)) [
    | inl p ↦
        let t : true ≡ false = sym (ap (λ b. if b then true else contains k d) p) ∙ h in absurd cc
    | inr p ↦
        let gone : contains k d ≡ false = sym (ap (λ b. if b then true else contains k d) p) ∙ h in
        rw p (lookup-absent k d gone)
  ]

  pub lookup-erase_self : (k : List ℕ) (d : Dict V) → Unique d → lookup k (erase k d) ≡ none
  lookup-erase_self k [] u = refl
  lookup-erase_self k (e ∷ d) (fresh, u) = elim (Bool-cases (same_bytes k e.0)) [
    | inl p ↦ rw p (lookup-absent k d (ap (λ j. contains j d) (same_bytes_eq k e.0 p) ∙ fresh))
    | inr p ↦ rw (p, p) (lookup-erase_self k d u)
  ]

  contains-cons :
      (k : List ℕ) (e : List ℕ × V) (d : Dict V) → contains k d ≡ true → contains k (e ∷ d) ≡ true
  contains-cons k e d h =
      elim (same_bytes k e.0) as (λ b. (if b then true else contains k d) ≡ true) [
        | true ↦ refl
        | false ↦ h
      ]

  All-contains_cons :
      (e : List ℕ × V) (d es : Dict V)
      → All (λ x. contains x.0 d ≡ true) es
      → All (λ x. contains x.0 (e ∷ d) ≡ true) es
  All-contains_cons e d [] h = tt
  All-contains_cons e d (x ∷ es) (a, h) = (contains-cons x.0 e d a, All-contains_cons e d es h)

  -- Every entry's key is in the map.
  pub All-contains : (d : Dict V) → All (λ e. contains e.0 d ≡ true) d
  All-contains [] = tt
  All-contains (e ∷ d) = (rw (same_bytes_refl e.0) refl, All-contains_cons e d d (All-contains d))

  pub All-insert {κ} :
      (P : List ℕ × V → Type κ) (k : List ℕ) (v : V) (d : Dict V)
      → P (k, v)
      → All P d
      → All P (insert k v d)
  All-insert P k v [] p h = (p, h)
  All-insert P k v (e ∷ d) p (a, h) = elim (Bool-cases (same_bytes k e.0)) [
    | inl q ↦ rw q (p, h)
    | inr q ↦ rw q (a, All-insert P k v d p h)
  ]

  pub All-erase {κ} :
      (P : List ℕ × V → Type κ) (k : List ℕ) (d : Dict V) → All P d → All P (erase k d)
  All-erase P k [] h = h
  All-erase P k (e ∷ d) (a, h) = elim (Bool-cases (same_bytes k e.0)) [
    | inl q ↦ rw q h
    | inr q ↦ rw q (a, All-erase P k d h)
  ]

  tail_free :
      (j : List ℕ) (e : List ℕ × V) (d : Dict V)
      → contains j (e ∷ d) ≡ false
      → (same_bytes j e.0 ≡ false) × (contains j d ≡ false)
  tail_free j e d h = elim (Bool-cases (same_bytes j e.0)) [
    | inl p ↦
        let t : true ≡ false = sym (ap (λ b. if b then true else contains j d) p) ∙ h in absurd cc
    | inr p ↦ (p, sym (ap (λ b. if b then true else contains j d) p) ∙ h)
  ]

  free-insert :
      (j k : List ℕ) (v : V) (d : Dict V)
      → same_bytes j k ≡ false
      → contains j d ≡ false
      → contains j (insert k v d) ≡ false
  free-insert j k v [] n h = rw n refl
  free-insert j k v (e ∷ d) n h =
      let (m, g) = tail_free j e d h in
      elim (Bool-cases (same_bytes k e.0)) [
        | inl p ↦ rw (p, n) g
        | inr p ↦ rw (p, m) (free-insert j k v d n g)
      ]

  free-erase : (j k : List ℕ) (d : Dict V) → contains j d ≡ false → contains j (erase k d) ≡ false
  free-erase j k [] h = h
  free-erase j k (e ∷ d) h =
      let (m, g) = tail_free j e d h in
      elim (Bool-cases (same_bytes k e.0)) [
        | inl p ↦ rw p g
        | inr p ↦ rw (p, m) (free-erase j k d g)
      ]

  pub Unique-insert : (k : List ℕ) (v : V) (d : Dict V) → Unique d → Unique (insert k v d)
  Unique-insert k v [] u = (refl, u)
  Unique-insert k v (e ∷ d) (fresh, u) = elim (Bool-cases (same_bytes k e.0)) [
    | inl p ↦ rw p (ap (λ j. contains j d) (same_bytes_eq k e.0 p) ∙ fresh, u)
    | inr p ↦ rw p (free-insert e.0 k v d (same_false_sym k e.0 p) fresh, Unique-insert k v d u)
  ]

  pub Unique-erase : (k : List ℕ) (d : Dict V) → Unique d → Unique (erase k d)
  Unique-erase k [] u = u
  Unique-erase k (e ∷ d) (fresh, u) = elim (Bool-cases (same_bytes k e.0)) [
    | inl p ↦ rw p u
    | inr p ↦ rw p (free-erase e.0 k d fresh, Unique-erase k d u)
  ]

  pub lookup-erase_ne :
      (j k : List ℕ) (d : Dict V) → same_bytes j k ≡ false → lookup j (erase k d) ≡ lookup j d
  lookup-erase_ne j k [] h = refl
  lookup-erase_ne j k (e ∷ d) h = elim (Bool-cases (same_bytes k e.0)) [
    | inl p ↦
        let n : same_bytes j e.0 ≡ false = ap (same_bytes j) (sym (same_bytes_eq k e.0 p)) ∙ h in
        rw (p, n) refl
    | inr p ↦ rw p (ap (λ o. if same_bytes j e.0 then some e.1 else o) (lookup-erase_ne j k d h))
  ]

  All-lookup_cons :
      (e : List ℕ × V) (d es : Dict V)
      → contains e.0 es ≡ false
      → All (λ x. lookup x.0 d ≡ some x.1) es
      → All (λ x. lookup x.0 (e ∷ d) ≡ some x.1) es
  All-lookup_cons e d [] f h = tt
  All-lookup_cons e d (x ∷ es) f (a, h) =
      let (m, g) = tail_free e.0 x es f in
      (rw (same_false_sym e.0 x.0 m) a, All-lookup_cons e d es g h)

  -- Each entry is the one that its key finds.
  pub All-lookup : (d : Dict V) → Unique d → All (λ e. lookup e.0 d ≡ some e.1) d
  All-lookup [] u = tt
  All-lookup (e ∷ d) (fresh, u) =
      (rw (same_bytes_refl e.0) refl, All-lookup_cons e d d fresh (All-lookup d u))
