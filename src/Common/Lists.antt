-- ===== src/Common/Lists.antt =====
-- Lists measured, indexed, sliced and overwritten by native numbers.
use Prim.Native.Nat.{ℕ, zero, suc, ◌+◌, ◌-◌, ◌≤◌, ◌<◌, min}
use Prim.Native.Nat.add
use mathlib.Core.Path.{◌≡◌, refl, ap, ◌∙◌}
use mathlib.Core.Logic.{◌≢◌}
use mathlib.Core.List.{List, [], ◌∷◌, ◌++◌}
use mathlib.Core.Option
use mathlib.Core.Option.{Option, none, some}
use native.Mathlib.Omega.{arith}

module _ {ℓ} {A : Type ℓ} where
  abbrev pub length : List A → ℕ
  length [] = 0
  length (x ∷ xs) = suc (length xs)

  abbrev pub get_elem? : List A → ℕ → Option A
  get_elem? [] i = none
  get_elem? (x ∷ xs) zero = some x
  get_elem? (x ∷ xs) (suc i) = get_elem? xs i

  abbrev pub take : ℕ → List A → List A
  take zero xs = []
  take (suc n) [] = []
  take (suc n) (x ∷ xs) = x ∷ take n xs

  abbrev pub drop : ℕ → List A → List A
  drop zero xs = xs
  drop (suc n) [] = []
  drop (suc n) (x ∷ xs) = drop n xs

  abbrev pub replicate : ℕ → A → List A
  replicate zero a = []
  replicate (suc n) a = a ∷ replicate n a

  abbrev pub All {κ} : (A → Type κ) → List A → Type κ
  All P [] = Unit {κ}
  All P (x ∷ xs) = P x × All P xs

  -- `xs[i] = v`, `xs.insert(i, v)` and `xs.remove(i)`, for positions in range.
  abbrev pub set : List A → ℕ → A → List A
  set [] i v = []
  set (x ∷ xs) zero v = v ∷ xs
  set (x ∷ xs) (suc i) v = x ∷ set xs i v

  abbrev pub insert_at : ℕ → A → List A → List A
  insert_at zero v xs = v ∷ xs
  insert_at (suc i) v [] = v ∷ []
  insert_at (suc i) v (x ∷ xs) = x ∷ insert_at i v xs

  abbrev pub remove_at : ℕ → List A → List A
  remove_at i [] = []
  remove_at zero (x ∷ xs) = xs
  remove_at (suc i) (x ∷ xs) = x ∷ remove_at i xs

  -- The first `n` elements, or `none` where there are fewer.
  abbrev pub take_exact : ℕ → List A → Option (List A)
  take_exact zero xs = some []
  take_exact (suc n) [] = none
  take_exact (suc n) (x ∷ xs) = Option.map (λ ys. x ∷ ys) (take_exact n xs)

  -- `xs[i .. i + n]`, or `none` where that range is out of bounds.
  abbrev pub slice : ℕ → ℕ → List A → Option (List A)
  slice zero n xs = take_exact n xs
  slice (suc i) n [] = none
  slice (suc i) n (x ∷ xs) = slice i n xs

  -- The front of the list replaced by `vs`, or `none` where the list is shorter than that.
  abbrev pub overwrite : List A → List A → Option (List A)
  overwrite [] xs = some xs
  overwrite (v ∷ vs) [] = none
  overwrite (v ∷ vs) (x ∷ xs) = Option.map (λ ys. v ∷ ys) (overwrite vs xs)

  -- `xs[i .. i + length vs].copy_from_slice(vs)`, or `none` where that range is out of bounds.
  abbrev pub write_at : ℕ → List A → List A → Option (List A)
  write_at zero vs xs = overwrite vs xs
  write_at (suc i) vs [] = none
  write_at (suc i) vs (x ∷ xs) = Option.map (λ ys. x ∷ ys) (write_at i vs xs)

module _ {ℓ} {A : Type ℓ} where
  pub length-append : (xs ys : List A) → length (xs ++ ys) ≡ length xs + length ys
  length-append [] ys = omega arith
  length-append (x ∷ xs) ys = omega (arith, length-append xs ys)

  pub length-replicate : (n : ℕ) (a : A) → length (replicate n a) ≡ n
  length-replicate zero a = refl
  length-replicate (suc n) a = ap suc (length-replicate n a)

  pub length-take : (n : ℕ) (xs : List A) → length (take n xs) ≡ min n (length xs)
  length-take zero xs = omega arith
  length-take (suc n) [] = omega arith
  length-take (suc n) (x ∷ xs) = omega (arith, length-take n xs)

  pub length-drop : (n : ℕ) (xs : List A) → length (drop n xs) ≡ length xs - n
  length-drop zero xs = omega arith
  length-drop (suc n) [] = omega arith
  length-drop (suc n) (x ∷ xs) = omega (arith, length-drop n xs)

  pub take-append-drop : (n : ℕ) (xs : List A) → take n xs ++ drop n xs ≡ xs
  take-append-drop zero xs = refl
  take-append-drop (suc n) [] = refl
  take-append-drop (suc n) (x ∷ xs) = ap (λ ys. x ∷ ys) (take-append-drop n xs)

  pub get_elem?-append_right :
      (xs ys : List A) (k : ℕ) → get_elem? (xs ++ ys) (length xs + k) ≡ get_elem? ys k
  get_elem?-append_right [] ys k = ap (get_elem? ys) (add.zero k)
  get_elem?-append_right (x ∷ xs) ys k =
      ap (get_elem? (x ∷ xs ++ ys)) (add.suc (length xs) k) ∙ get_elem?-append_right xs ys k

  pub take_exact-append : (xs ys : List A) → take_exact (length xs) (xs ++ ys) ≡ some xs
  take_exact-append [] ys = refl
  take_exact-append (x ∷ xs) ys = ap (Option.map (λ zs. x ∷ zs)) (take_exact-append xs ys)

  pub slice-append :
      (ws xs ys : List A) → slice (length ws) (length xs) (ws ++ (xs ++ ys)) ≡ some xs
  slice-append [] xs ys = take_exact-append xs ys
  slice-append (w ∷ ws) xs ys = slice-append ws xs ys

  pub overwrite-append :
      (vs xs ys : List A) → length xs ≡ length vs → overwrite vs (xs ++ ys) ≡ some (vs ++ ys)
  overwrite-append [] [] ys h = refl
  overwrite-append [] (x ∷ xs) ys h = absurd (omega arith)
  overwrite-append (v ∷ vs) [] ys h = absurd (omega arith)
  overwrite-append (v ∷ vs) (x ∷ xs) ys h =
      ap (Option.map (λ zs. v ∷ zs)) (overwrite-append vs xs ys (omega arith))

  pub write_at-append :
      (ws xs ys vs : List A) (k : ℕ)
      → write_at k vs xs ≡ some ys
      → write_at (length ws + k) vs (ws ++ xs) ≡ some (ws ++ ys)
  write_at-append [] xs ys vs k h = ap (λ i. write_at i vs xs) (add.zero k) ∙ h
  write_at-append (w ∷ ws) xs ys vs k h =
      ap (λ i. write_at i vs (w ∷ ws ++ xs)) (add.suc (length ws) k)
      ∙ ap (Option.map (λ zs. w ∷ zs)) (write_at-append ws xs ys vs k h)

  pub get_elem?-bounds : (xs : List A) (i : ℕ) → i < length xs → (x : A) × (get_elem? xs i ≡ some x)
  get_elem?-bounds [] i h = absurd (omega arith)
  get_elem?-bounds (x ∷ xs) zero h = (x, refl)
  get_elem?-bounds (x ∷ xs) (suc i) h = get_elem?-bounds xs i (omega arith)

  pub take_exact-bounds :
      (n : ℕ) (xs : List A)
      → n ≤ length xs
      → (ys : List A) × (take_exact n xs ≡ some ys) × (length ys ≡ n)
  take_exact-bounds zero xs h = ([], refl, refl)
  take_exact-bounds (suc n) [] h = absurd (omega arith)
  take_exact-bounds (suc n) (x ∷ xs) h =
      let (ys, e, l) = take_exact-bounds n xs (omega arith) in
      (x ∷ ys, ap (Option.map (λ zs. x ∷ zs)) e, ap suc l)

  pub slice-bounds :
      (i n : ℕ) (xs : List A)
      → i + n ≤ length xs
      → (ys : List A) × (slice i n xs ≡ some ys) × (length ys ≡ n)
  slice-bounds zero n xs h = take_exact-bounds n xs (omega arith)
  slice-bounds (suc i) n [] h = absurd (omega arith)
  slice-bounds (suc i) n (x ∷ xs) h = slice-bounds i n xs (omega arith)

  pub length-set : (xs : List A) (i : ℕ) (v : A) → length (set xs i v) ≡ length xs
  length-set [] i v = refl
  length-set (x ∷ xs) zero v = refl
  length-set (x ∷ xs) (suc i) v = ap suc (length-set xs i v)

  pub get_elem?-set_self :
      (xs : List A) (i : ℕ) (v : A) → i < length xs → get_elem? (set xs i v) i ≡ some v
  get_elem?-set_self [] i v h = absurd (omega arith)
  get_elem?-set_self (x ∷ xs) zero v h = refl
  get_elem?-set_self (x ∷ xs) (suc i) v h = get_elem?-set_self xs i v (omega arith)

  pub get_elem?-set_ne :
      (xs : List A) (i j : ℕ) (v : A) → i ≢ j → get_elem? (set xs i v) j ≡ get_elem? xs j
  get_elem?-set_ne [] i j v h = refl
  get_elem?-set_ne (x ∷ xs) zero zero v h = absurd (h refl)
  get_elem?-set_ne (x ∷ xs) zero (suc j) v h = refl
  get_elem?-set_ne (x ∷ xs) (suc i) zero v h = refl
  get_elem?-set_ne (x ∷ xs) (suc i) (suc j) v h = get_elem?-set_ne xs i j v (λ e. h (ap suc e))

  pub set-set : (xs : List A) (i : ℕ) (v w : A) → set (set xs i v) i w ≡ set xs i w
  set-set [] i v w = refl
  set-set (x ∷ xs) zero v w = refl
  set-set (x ∷ xs) (suc i) v w = ap (λ ys. x ∷ ys) (set-set xs i v w)
