-- ===== src/Encoding/State/Laws.antt =====
-- The buffer accesses at a cursor whose surroundings are known, or that is in bounds.
use peeroxide.Common.{
  ℕ, ◌+◌, ◌≤◌, ◌<◌, ◌≡◌, ap, some, List, [], ◌∷◌, ◌++◌, arith, length, get_elem?,
  get_elem?-append_right, get_elem?-bounds, slice, slice-append, slice-bounds, write_at,
  write_at-append, overwrite-append,
}
use native.Mathlib.Nat.{add-zero}
use peeroxide.Encoding.State.{
  State, ok, M, ◌>>=◌, ◌>>◌, or_panic, check_remaining, load, store, load_slice, store_slice,
  advance,
}
use peeroxide.Encoding.Laws.{Reads, Writes, WellFormed, Within, Safe}

pub check_remaining-fits : (n : ℕ) (s : State) → s.start + n ≤ s.end → check_remaining n s ≡ ok tt s
unfolding check_remaining
check_remaining-fits n s h = ground arith

pub load-front :
    (k : ℕ) (s : State) (pre ys : List ℕ)
    → s.start ≡ length pre
    → s.buffer ≡ pre ++ ys
    → load k s ≡ or_panic (get_elem? ys k) (λ b. ok b s)
unfolding load
load-front k s pre ys hs hb =
    ap (λ o. or_panic o (λ b. ok b s)) (rw (hs, hb) (get_elem?-append_right pre ys k))

pub store-front :
    (k b : ℕ) (s : State) (pre ys zs : List ℕ)
    → s.start ≡ length pre
    → s.buffer ≡ pre ++ ys
    → write_at k (b ∷ []) ys ≡ some zs
    → store k b s ≡ ok tt (record s { buffer = pre ++ zs })
unfolding store
store-front k b s pre ys zs hs hb hw =
    let found : write_at (s.start + k) (b ∷ []) s.buffer ≡ some (pre ++ zs) =
      rw (hs, hb) (write_at-append pre ys zs (b ∷ []) k hw) in
    ap (λ o. or_panic o (λ buf. ok tt (record s { buffer = buf }))) found

pub load_slice-front :
    (s : State) (pre bs post : List ℕ) (n : ℕ)
    → s.start ≡ length pre
    → s.buffer ≡ pre ++ (bs ++ post)
    → n ≡ length bs
    → load_slice n s ≡ ok bs s
unfolding load_slice
load_slice-front s pre bs post n hs hb hn =
    let found : slice s.start n s.buffer ≡ some bs = rw (hs, hb, hn) (slice-append pre bs post) in
    ap (λ o. or_panic o (λ b. ok b s)) found

pub Writes-store_slice :
    (bs : List ℕ) (n : ℕ) → n ≡ length bs → Writes (store_slice bs >> advance n) bs
unfolding store_slice advance
Writes-store_slice bs n hn = record {
  at = λ s pre old post hs hb hl.
      let found : write_at s.start bs s.buffer ≡ some (pre ++ (bs ++ post)) =
        rw (hs, hb, ← add-zero (length pre))
          (write_at-append pre (old ++ post) (bs ++ post) bs 0 (overwrite-append bs old post hl)) in
      rw (found, ◌>>◌, ◌>>=◌, hn);
}

pub Safe-check :
    {A : Type 0} (n : ℕ) (d : M A)
    → ((s : State) → WellFormed s → s.start + n ≤ s.end → Within s (d s))
    → Safe (check_remaining n >> d)
unfolding check_remaining
Safe-check n d h = record { at = λ s wf. ground (arith, h s wf) }

pub load-bounds :
    (k : ℕ) (s : State) → s.start + k < length s.buffer → (b : ℕ) × (load k s ≡ ok b s)
unfolding load
load-bounds k s h =
    let (b, e) = get_elem?-bounds s.buffer (s.start + k) h in
    (b, ap (λ o. or_panic o (λ x. ok x s)) e)

pub load_slice-bounds :
    (n : ℕ) (s : State)
    → s.start + n ≤ length s.buffer
    → (bs : List ℕ) × (load_slice n s ≡ ok bs s) × (length bs ≡ n)
unfolding load_slice
load_slice-bounds n s h =
    let (bs, e, l) = slice-bounds s.start n s.buffer h in
    (bs, ap (λ o. or_panic o (λ x. ok x s)) e, l)

pub Reads-check :
    {A : Type 0} (n : ℕ) {d : M A} {bs : List ℕ} {v : A}
    → n ≤ length bs
    → Reads d bs v
    → Reads (check_remaining n >> d) bs v
Reads-check n h r = record {
  at = λ s pre post hs hb he.
      rw (check_remaining-fits n s (omega arith), ◌>>◌, ◌>>=◌) (r.at s pre post hs hb he);
}

pub Safe-checked : {A : Type 0} (n : ℕ) {d : M A} → Safe d → Safe (check_remaining n >> d)
Safe-checked n {d} sd = Safe-check n d (λ s wf h. sd.at s wf)
