-- ===== src/Filter/Laws.antt =====
-- The windowed maximum: the order of its entries, and their age.
use peeroxide.Common.{ℕ, ◌^◌, ◌≡◌, ◌<◌, inl, inr, Bool, true, false, Bool-cases, arith}
use peeroxide.Filter.{WindowedMaxFilter, expired, filled, get, forget, raise, update}

-- A total and transitive test.
pub record IsOrder {A : Type 0} (geb : A → A → Bool) : Type 0 where
  pub total : (a b : A) → geb a b ≡ false → geb b a ≡ true
  pub itself : (a : A) → geb a a ≡ true
  pub chain : (a b c : A) → geb a b ≡ true → geb b c ≡ true → geb a c ≡ true

-- The values of the entries do not rise from the first to the last.
pub record Descends {A : Type 0} (geb : A → A → Bool) (f : WindowedMaxFilter A) : Type 0 where
  pub first : geb f.e0.0 f.e1.0 ≡ true
  pub second : geb f.e1.0 f.e2.0 ≡ true

module _ {A : Type 0} (geb : A → A → Bool) (o : IsOrder geb) where
  Descends-filled : (e : A × ℕ) → Descends geb (filled e)
  Descends-filled e = record { first = o.itself e.0; second = o.itself e.0 }

  -- After raising, the sample is at most the last entry.
  raise-Descends :
      (e : A × ℕ) (f : WindowedMaxFilter A)
      → Descends geb f
      → geb e.0 f.e0.0 ≡ false
      → Descends geb (raise geb e f) × (geb (raise geb e f).e2.0 e.0 ≡ true)
  unfolding raise
  raise-Descends e f d h = elim (Bool-cases (geb e.0 f.e1.0)) [
    | inl p ↦ rw p (record { first = o.total _ _ h; second = o.itself e.0 }, o.itself e.0)
    | inr p ↦ elim (Bool-cases (geb e.0 f.e2.0)) [
      | inl q ↦ rw (p, q) (record { first = d.first; second = o.total _ _ p }, o.itself e.0)
      | inr q ↦ rw (p, q) (d, o.total _ _ q)
    ]
  ]

  forget-Descends :
      (e : A × ℕ) (window : ℕ) (f : WindowedMaxFilter A)
      → Descends geb f
      → geb f.e2.0 e.0 ≡ true
      → Descends geb (forget e window f) × (geb (forget e window f).e0.0 e.0 ≡ true)
  unfolding forget
  forget-Descends e window f d h = elim (Bool-cases (expired e.1 window f.e0.1)) [
    | inl p ↦ elim (Bool-cases (expired e.1 window f.e1.1)) [
      | inl q ↦ rw (p, q) (record { first = h; second = o.itself e.0 }, h)
      | inr q ↦ rw (p, q) (record { first = d.second; second = h }, o.chain _ _ _ d.second h)
    ]
    | inr p ↦ rw p (d, o.chain _ _ _ d.first (o.chain _ _ _ d.second h))
  ]

  -- For samples under a total and transitive test, which `>=` is on floats that are numbers,
  -- updating a filter whose three values do not rise leaves one whose values do not rise, and
  -- whose maximum is at least the new sample.
  pub update-Descends :
      (val : A) (round_count window : ℕ) (f : WindowedMaxFilter A)
      → Descends geb f
      → Descends geb (update geb val round_count window f)
        × (geb (get (update geb val round_count window f)) val ≡ true)
  unfolding update get
  update-Descends val round_count window f d = elim (Bool-cases (geb val f.e0.0)) [
    | inl p ↦ rw p (Descends-filled (val, round_count), o.itself val)
    | inr p ↦ elim (Bool-cases (expired round_count window f.e2.1)) [
      | inl q ↦ rw (p, q) (Descends-filled (val, round_count), o.itself val)
      | inr q ↦
          let (r, l) = raise-Descends (val, round_count) f d p in
          rw (p, q) (forget-Descends (val, round_count) window _ r l)
    ]
  ]

-- A sample of this round is young.
now_young :
    (round_count window : ℕ)
    → round_count < 2 ^ 32
    → 0 < window
    → expired round_count window round_count ≡ false
now_young round_count window h w = ground arith

raise_last :
    {A : Type 0} (geb : A → A → Bool) (e : A × ℕ) (window : ℕ) (f : WindowedMaxFilter A)
    → expired e.1 window e.1 ≡ false
    → expired e.1 window f.e2.1 ≡ false
    → expired e.1 window (raise geb e f).e2.1 ≡ false
unfolding raise
raise_last geb e window f h g = elim (Bool-cases (geb e.0 f.e1.0)) [
  | inl p ↦ rw p h
  | inr p ↦ elim (Bool-cases (geb e.0 f.e2.0)) [ inl q ↦ rw (p, q) h | inr q ↦ rw (p, q) g ]
]

forget_first :
    {A : Type 0} (e : A × ℕ) (window : ℕ) (f : WindowedMaxFilter A)
    → expired e.1 window f.e2.1 ≡ false
    → expired e.1 window (forget e window f).e0.1 ≡ false
unfolding forget
forget_first e window f h = elim (Bool-cases (expired e.1 window f.e0.1)) [
  | inl p ↦ elim (Bool-cases (expired e.1 window f.e1.1)) [
    | inl q ↦ rw (p, q) h
    | inr q ↦ rw (p, q) q
  ]
  | inr p ↦ rw p p
]

-- After an update at a 32-bit round with a window of at least one round, the round of the
-- maximum is within the window, whatever the filter held before and whatever the test on
-- samples.
pub update_young :
    {A : Type 0} (geb : A → A → Bool) (val : A) (round_count window : ℕ) (f : WindowedMaxFilter A)
    → round_count < 2 ^ 32
    → 0 < window
    → expired round_count window (update geb val round_count window f).e0.1 ≡ false
unfolding update
update_young geb val round_count window f h w =
    let young = now_young round_count window h w in
    elim (Bool-cases (geb val f.e0.0)) [
      | inl p ↦ rw p young
      | inr p ↦ elim (Bool-cases (expired round_count window f.e2.1)) [
        | inl q ↦ rw (p, q) young
        | inr q ↦
            rw (p, q)
              (forget_first (val, round_count) window _
                (raise_last geb (val, round_count) window f young q))
      ]
    ]
