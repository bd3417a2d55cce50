-- ===== src/Encoding/Laws.antt =====
-- What an encoder, a decoder and a size computation owe one another, and the rules that carry
-- these facts through `do` blocks.
use peeroxide.Common.{
  ℕ, zero, suc, lt→ltb, ◌+◌, ◌-◌, ◌≤◌, ◌≡◌, refl, sym, ap, ap₂, ◌∙◌, List, [], ◌∷◌, ◌++◌,
  append-nil, fun_ext, append_assoc, arith, length, length-append, length-take, length-drop,
  length-replicate, replicate, ◌-◌, length-replicate, take, drop, take-append-drop, replicate,
}
use peeroxide.Encoding.State.{
  State, Outcome, ok, err, panic, new, from_buffer, alloc, M, ◌>>=◌, ◌>>◌, pure, raise, new,
  from_buffer, alloc, reserve, EncodingError,
}

-- `d` takes the bytes `bs` at the cursor, returns `v`, and moves the cursor past them.
pub record Reads {A : Type 0} (d : M A) (bs : List ℕ) (v : A) : Type 0 where
  pub at :
      (s : State) (pre post : List ℕ)
      → s.start ≡ length pre
      → s.buffer ≡ pre ++ (bs ++ post)
      → s.start + length bs ≤ s.end
      → d s ≡ ok v (record s { start = s.start + length bs })

-- `w` replaces as many bytes at the cursor by `bs`, and moves the cursor past them.
pub record Writes (w : M (Unit {0})) (bs : List ℕ) : Type 0 where
  pub at :
      (s : State) (pre old post : List ℕ)
      → s.start ≡ length pre
      → s.buffer ≡ pre ++ (old ++ post)
      → length old ≡ length bs
      → w s ≡ ok tt (record s { start = s.start + length bs; buffer = pre ++ (bs ++ post) })

-- `p` reserves `n` bytes.
abbrev pub Sizes : (State → State) → ℕ → Type 0
Sizes p n = (s : State) → p s ≡ reserve n s

abbrev pub WellFormed : State → Type 0
WellFormed s = (s.start ≤ s.end) × (s.end ≤ length s.buffer)

-- The call does not panic, leaves the buffer and its end alone, and keeps the cursor in bounds.
abbrev pub Within : {A : Type 0} → State → Outcome A → Type 0
Within s (ok a t) =
    (t.buffer ≡ s.buffer) × (t.end ≡ s.end) × (s.start ≤ t.start) × (t.start ≤ s.end)
Within s (err e t) =
    (t.buffer ≡ s.buffer) × (t.end ≡ s.end) × (s.start ≤ t.start) × (t.start ≤ s.end)
Within s panic = ⊥

pub record Safe {A : Type 0} (d : M A) : Type 0 where
  pub at : (s : State) → WellFormed s → Within s (d s)

pub Reads-pure : {A : Type 0} (a : A) → Reads (pure a) [] a
Reads-pure a = record {
  at = λ s pre post hs hb he. ap (λ n. ok a (record s { start = n })) (omega arith);
}

pub Reads-bind :
    {A B : Type 0} {m : M A} (f : A → M B) {xs ys : List ℕ} {a : A} {b : B}
    → Reads m xs a
    → Reads (f a) ys b
    → Reads (m >>= f) (xs ++ ys) b
Reads-bind {m} f {xs} {ys} {a} {b} rm rf = record {
  at = λ s pre post hs hb he.
      let t : State = record s { start = s.start + length xs } in
      let first : m s ≡ ok a t =
        rm.at s pre (ys ++ post) hs (hb ∙ ap (λ zs. pre ++ zs) (append_assoc xs ys post))
          (omega (arith, length-append xs ys)) in
      let second : f a t ≡ ok b (record s { start = s.start + length xs + length ys }) =
        rf.at t (pre ++ xs) post (omega (arith, length-append pre xs))
          (hb
            ∙ ap (λ zs. pre ++ zs) (append_assoc xs ys post)
            ∙ sym (append_assoc pre xs (ys ++ post)))
          (omega (arith, length-append xs ys)) in
      rw (first, ◌>>=◌)
        (second ∙ ap (λ n. ok b (record s { start = n })) (omega (arith, length-append xs ys)));
}

pub Writes-bind :
    {v w : M (Unit {0})} {xs ys : List ℕ} → Writes v xs → Writes w ys → Writes (v >> w) (xs ++ ys)
Writes-bind {v} {w} {xs} {ys} wv ww = record {
  at = λ s pre old post hs hb hl.
      let l : List ℕ = take (length xs) old in
      let r : List ℕ = drop (length xs) old in
      let t : State = record s {
        start = s.start + length xs;
        buffer = pre ++ (xs ++ (r ++ post));
      } in
      let cut : old ++ post ≡ l ++ (r ++ post) =
        ap (λ zs. zs ++ post) (sym (take-append-drop (length xs) old)) ∙ append_assoc l r post in
      let first : v s ≡ ok tt t =
        wv.at s pre l (r ++ post) hs (hb ∙ ap (λ zs. pre ++ zs) cut)
          (omega (arith, length-take (length xs) old, length-append xs ys)) in
      let second : w t
          ≡ ok tt (record s {
            start = s.start + length xs + length ys;
            buffer = (pre ++ xs) ++ (ys ++ post);
          }) =
        ww.at t (pre ++ xs) r post (omega (arith, length-append pre xs))
          (sym (append_assoc pre xs (r ++ post)))
          (omega (arith, length-drop (length xs) old, length-append xs ys)) in
      rw (first, ◌>>=◌, ◌>>◌)
        (second
          ∙ ap₂ (λ n zs. ok tt (record s { start = n; buffer = zs }))
              (omega (arith, length-append xs ys))
              (append_assoc pre xs (ys ++ post)
                ∙ ap (λ zs. pre ++ zs) (sym (append_assoc xs ys post))));
}

-- Steps may be grouped either way.
pub >>-assoc : {B : Type 0} (m n : M (Unit {0})) (k : M B) → (m >> (n >> k)) ≡ ((m >> n) >> k)
>>-assoc m n k = fun_ext λ s. ground arith

nothing_at :
    (s : State) (pre old post : List ℕ)
    → s.start ≡ length pre
    → s.buffer ≡ pre ++ (old ++ post)
    → length old ≡ 0
    → ok tt s ≡ ok tt (record s { start = s.start + 0; buffer = pre ++ post })
nothing_at s pre [] post hs hb hl =
    ap₂ (λ i b. ok tt (record s { start = i; buffer = b })) (omega arith) hb
nothing_at s pre (o ∷ old) post hs hb hl = absurd (omega arith)

pub Writes-nothing : Writes (pure tt) []
Writes-nothing = record { at = nothing_at }

-- The same call under another spelling of its bytes.
pub Reads-eq :
    {A : Type 0} {d : M A} {xs ys : List ℕ} {a : A} → xs ≡ ys → Reads d xs a → Reads d ys a
Reads-eq e r = rw (← e) r

pub Writes-eq : {w : M (Unit {0})} {xs ys : List ℕ} → xs ≡ ys → Writes w xs → Writes w ys
Writes-eq e r = rw (← e) r

pub Reads-val : {A : Type 0} {d : M A} {xs : List ℕ} {a b : A} → a ≡ b → Reads d xs a → Reads d xs b
Reads-val e r = rw (← e) r

-- The last step of a block returns a value and reads nothing.
pub Reads-return :
    {A B : Type 0} {m : M A} (f : A → B) {xs : List ℕ} {a : A}
    → Reads m xs a
    → Reads (m >>= λ x. pure (f x)) xs (f a)
Reads-return f {xs} {a} r = Reads-eq (append-nil xs) (Reads-bind _ r (Reads-pure (f a)))

pub Safe-pure : {A : Type 0} (a : A) → Safe (pure a)
Safe-pure a = record { at = λ s h. (refl, refl, omega arith, omega arith) }

pub Safe-raise : {A : Type 0} (e : EncodingError) → Safe {A = A} (raise e)
Safe-raise e = record { at = λ s h. (refl, refl, omega arith, omega arith) }

Within-bind :
    {A B : Type 0} (s : State) (o : Outcome A) (f : A → M B)
    → WellFormed s
    → Within s o
    → ((a : A) → Safe (f a))
    → Within s (elim o [ ok a t ↦ f a t | err e t ↦ err e t | panic ↦ panic ])
Within-bind s (ok a t) f wf h sf = widen (f a t) ((sf a).at t (omega arith, rw (h.0) (omega arith)))
  where
    widen : {B : Type 0} (o : Outcome B) → Within t o → Within s o
    widen (ok b u) k = (k.0 ∙ h.0, k.1 ∙ h.1, omega arith, omega arith)
    widen (err e u) k = (k.0 ∙ h.0, k.1 ∙ h.1, omega arith, omega arith)
    widen panic k = k
Within-bind s (err e t) f wf h sf = h
Within-bind s panic f wf h sf = h

pub Safe-bind :
    {A B : Type 0} {m : M A} (f : A → M B) → Safe m → ((a : A) → Safe (f a)) → Safe (m >>= f)
Safe-bind {m} f sm sf = record { at = λ s h. Within-bind s (m s) f h (sm.at s h) sf }

-- Size, writer and reader agree on the bytes of `a`, and the reader makes `b` of them.
pub record Codes {A B : Type 0} (p : A → State → State) (w : A → M (Unit {0})) (d : M B) (a : A)
    (b : B) (bs : List ℕ) : Type 0 where
  pub sized : Sizes (p a) (length bs)
  pub written : Writes (w a) bs
  pub read : Reads d bs b

-- Reserving, allocating and encoding `a` fills the buffer to its last byte, and decoding that
-- buffer returns `b` and consumes all of it.
abbrev pub RoundTrips :
    {A B : Type 0} → (A → State → State) → (A → M (Unit {0})) → M B → A → B → Type 0
RoundTrips p w d a b =
    (s : State) × (w a (alloc (p a new)) ≡ ok tt s)
    × (s.start ≡ length s.buffer)
    × (d (from_buffer s.buffer) ≡ ok b s)

alloc_empty :
    (n : ℕ)
    → alloc (record { start = 0; end = n; buffer = [] })
      ≡ record { start = 0; end = n; buffer = replicate n 0 }
unfolding alloc
alloc_empty zero = refl
alloc_empty (suc n) =
    let e : suc n - 0 ≡ suc n = omega arith in
    rw (lt→ltb 0 (suc n) (omega arith))
      (ap (λ m. record { start = 0; end = suc n; buffer = replicate m 0 }) e)

alloc_reserved :
    (n : ℕ) → alloc (reserve n new) ≡ record { start = 0; end = n; buffer = replicate n 0 }
unfolding new
alloc_reserved n =
    let e : 0 + n ≡ n = omega arith in
    ap (λ m. alloc (record { start = 0; end = m; buffer = [] })) e ∙ alloc_empty n

-- Reserving, allocating and writing fills a new buffer.
pub fill :
    {p : State → State} {w : M (Unit {0})} {bs : List ℕ}
    → Sizes p (length bs)
    → Writes w bs
    → w (alloc (p new)) ≡ ok tt (record { start = length bs; end = length bs; buffer = bs })
fill {p} {w} {bs} sp ww =
    let n : ℕ = length bs in
    let fresh : State = record { start = 0; end = n; buffer = replicate n 0 } in
    let wrote : w fresh ≡ ok tt (record { start = 0 + n; end = n; buffer = bs ++ [] }) =
      ww.at fresh [] (replicate n 0) [] refl (sym (append-nil _)) (length-replicate n 0) in
    ap (λ t. w (alloc t)) (sp new)
    ∙ ap w (alloc_reserved n)
    ∙ wrote
    ∙ ap₂ (λ i b. ok tt (record { start = i; end = n; buffer = b })) (omega arith) (append-nil bs)

pub Codes-RoundTrips :
    {A B : Type 0} {p : A → State → State} {w : A → M (Unit {0})} {d : M B} {a : A} {b : B}
    {bs : List ℕ}
    → Codes p w d a b bs
    → RoundTrips p w d a b
unfolding from_buffer
Codes-RoundTrips {d} {b} {bs} c =
    let n : ℕ = length bs in
    let front : State = record { start = 0; end = n; buffer = bs } in
    let took : d front ≡ ok b (record { start = 0 + n; end = n; buffer = bs }) =
      c.read.at front [] [] refl (sym (append-nil bs)) (omega arith) in
    (
      record { start = n; end = n; buffer = bs },
      fill c.sized c.written,
      refl,
      took ∙ ap (λ i. ok b (record { start = i; end = n; buffer = bs })) (omega arith),
    )
