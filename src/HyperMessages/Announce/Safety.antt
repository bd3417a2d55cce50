-- ===== src/HyperMessages/Announce/Safety.antt =====
-- Announcements and lookup replies read from arbitrary bytes.
use peeroxide.Common.{
  ℕ, ◌*◌, ◌^◌, ◌-◌, ◌≤◌, ◌<◌, ◌↔◌, ◌≡◌, ◌≢◌, refl, sym, ap, subst, ◌∙◌, length, inl, inr, ltb, leb,
  leb→le, not_leb, Bool-cases, true, false, List, ◌∷◌, ◌++◌, arith,
}
use peeroxide.Encoding.State.{State, M, Outcome, ok, err, panic, pure, from_buffer, ◌>>=◌, ◌>>◌}
use peeroxide.Encoding.Laws.{Safe, Within, WellFormed, Safe-bind, Safe-pure}
use peeroxide.Encoding.Uint.{decode_uint}
use peeroxide.Encoding.Uint.Laws.{Safe-uint}
use peeroxide.Encoding.Uint.Shape.{Large, nine, decode_uint-Large, nine_bytes, IsBytes-front}
use peeroxide.Encoding.Words.{from_le_bytes}
use peeroxide.Header.Laws.{IsBytes}
use peeroxide.Encoding.Arrays.{decode_times}
use peeroxide.Encoding.Arrays.Laws.{Safe-times}
use peeroxide.Encoding.Bytes.Laws.{Safe-fixed32, Safe-fixed64}
use peeroxide.Messages.{has_flag, panicked, result}
use peeroxide.Messages.Fields.{Safe-error}
use peeroxide.HyperMessages.Parts.{
  Safe-some, Safe-addresses, result-ne-panicked, from_bytes-ne-panicked,
}
use peeroxide.HyperMessages.Announce.{
  decode_hyper_peer, LookupRawReply, decode_trailing, flag_peer, flag_refresh, flag_signature,
  flag_bump, decode_announce, decode_announce_from_bytes, hyper_peer_size, with_capacity,
  decode_lookup_raw_reply, decode_lookup_raw_reply_from_bytes,
}

Safe-hyper_peer : Safe decode_hyper_peer
unfolding decode_hyper_peer
Safe-hyper_peer = Safe-bind _ Safe-fixed32 (λ k. Safe-bind _ Safe-addresses (λ r. Safe-pure _))

Safe-announce : Safe decode_announce
unfolding decode_announce
Safe-announce = Safe-bind _ Safe-uint (λ flags.
    Safe-bind _ (Safe-some Safe-hyper_peer (has_flag flags flag_peer)) (λ p.
      Safe-bind _ (Safe-some Safe-fixed32 (has_flag flags flag_refresh)) (λ r.
        Safe-bind _ (Safe-some Safe-fixed64 (has_flag flags flag_signature))
          (λ s. Safe-bind _ (Safe-error (has_flag flags flag_bump)) (λ b. Safe-pure _)))))

pub announce-ne-panicked : (bs : List ℕ) → decode_announce_from_bytes bs ≢ panicked
unfolding decode_announce_from_bytes
announce-ne-panicked bs = from_bytes-ne-panicked Safe-announce bs

Safe-trailing : Safe decode_trailing
unfolding decode_trailing
Safe-trailing = record {
  at = λ s wf. elim (Bool-cases (ltb s.start s.end)) [
    | inl e ↦ rw e (Safe-uint.at s wf)
    | inr e ↦ rw e (refl, refl, omega arith, wf.0)
  ];
}

-- The peers and the bump, once the capacity is there.
decode_peers : ℕ → M LookupRawReply
decode_peers count = do
  peers ← decode_times decode_hyper_peer count
  bump ← decode_trailing
  pure (record { peers = peers; bump = bump })

Safe-peers : (count : ℕ) → Safe (decode_peers count)
unfolding decode_peers
Safe-peers count =
    Safe-bind _ (Safe-times Safe-hyper_peer count)
      (λ peers. Safe-bind _ Safe-trailing (λ bump. Safe-pure _))

Safe-capacity :
    (count : ℕ)
    → count * hyper_peer_size < 2 ^ 63
    → Safe (with_capacity hyper_peer_size count >> decode_peers count)
unfolding with_capacity
Safe-capacity count h = record {
  at = λ s wf.
      let fits : ltb (2 ^ 63 - 1) (count * hyper_peer_size) ≡ false = ground arith in
      rw (◌>>◌, ◌>>=◌, fits) ((Safe-peers count).at s wf);
}

decode_lookup-peers :
    (s : State)
    → decode_lookup_raw_reply s
      ≡ (decode_uint >>= λ count. with_capacity hyper_peer_size count >> decode_peers count) s
unfolding decode_lookup_raw_reply decode_peers
decode_lookup-peers s = refl

-- What went before a panic in the second of two steps of which only the second may panic.
panic-bind :
    {A B : Type 0} (f : A → M B) (s : State) (o : Outcome A)
    → WellFormed s
    → Within s o
    → result (λ m t. m) (elim o [ ok a t ↦ f a t | err e t ↦ err e t | panic ↦ panic ]) ≡ panicked
    → (a : A) × (t : State) × (o ≡ ok a t) × WellFormed t × (result (λ m u. m) (f a t) ≡ panicked)
panic-bind f s (ok a t) v w h =
    (a, t, refl, (omega (arith, w), omega (arith, w, v, ap length w.0)), h)
panic-bind f s (err e t) v w h = absurd cc
panic-bind f s panic v w h = absurd w

whole_buffer : (bs : List ℕ) → WellFormed (from_buffer bs)
unfolding from_buffer
whole_buffer bs = (omega arith, omega arith)

-- A panic needs a count of peers that memory cannot hold.
panic_count :
    (bs : List ℕ)
    → decode_lookup_raw_reply_from_bytes bs ≡ panicked
    → (count : ℕ) × (s : State) × (decode_uint (from_buffer bs) ≡ ok count s)
      × (2 ^ 63 ≤ count * hyper_peer_size)
unfolding decode_lookup_raw_reply_from_bytes
panic_count bs h =
    let s : State = from_buffer bs in
    let v : WellFormed s = whole_buffer bs in
    let (count, t, e, u, later) =
      panic-bind (λ n. with_capacity hyper_peer_size n >> decode_peers n) s (decode_uint s) v
        (Safe-uint.at s v) (ap (result (λ m t. m)) (sym (decode_lookup-peers s)) ∙ h) in
    elim (Bool-cases (leb (2 ^ 63) (count * hyper_peer_size))) [
      | inl large ↦ (count, t, e, leb→le _ _ large)
      | inr fits ↦
          absurd (result-ne-panicked t _ ((Safe-capacity count (not_leb _ _ fits)).at t u) later)
    ]

count_panics :
    (bs : List ℕ) (count : ℕ) (s : State)
    → decode_uint (from_buffer bs) ≡ ok count s
    → 2 ^ 63 ≤ count * hyper_peer_size
    → decode_lookup_raw_reply_from_bytes bs ≡ panicked
unfolding decode_lookup_raw_reply_from_bytes with_capacity
count_panics bs count s e h =
    let large : ltb (2 ^ 63 - 1) (count * hyper_peer_size) ≡ true = ground arith in
    rw (decode_lookup-peers, ◌>>=◌, e, with_capacity, large) refl

overflowing_bytes :
    (bs : List ℕ) (count : ℕ)
    → 2 ^ 63 ≤ count * hyper_peer_size
    → Large count bs
    → (word : List ℕ) × (rest : List ℕ) × (bs ≡ 255 ∷ (word ++ rest))
      × (length word ≡ 8)
      × (2 ^ 63 ≤ from_le_bytes word * hyper_peer_size)
overflowing_bytes bs count h (nine word rest wl e) = (word, rest, refl, wl, omega (arith, e))

-- Of all buffers of bytes, decode_lookup_raw_reply_from_bytes panics exactly on those that begin
-- with 255 and eight bytes whose number, least significant byte first, times the 56 bytes of a
-- peer is 2^63 or more; on every other buffer it returns a reply or an error.
pub lookup_raw_reply_panics :
    (bs : List ℕ)
    → IsBytes bs
    → (decode_lookup_raw_reply_from_bytes bs ≡ panicked) ↔ (
        (word : List ℕ) × (rest : List ℕ) × (bs ≡ 255 ∷ (word ++ rest))
        × (length word ≡ 8)
        × (2 ^ 63 ≤ from_le_bytes word * hyper_peer_size))
lookup_raw_reply_panics bs v = (
  λ h.
      let (count, s, e, large) = panic_count bs h in
      overflowing_bytes bs count large (decode_uint-Large bs count s v (omega (arith, large)) e),
  λ (word, rest, cut, wl, large).
      let whole : IsBytes (255 ∷ (word ++ rest)) = subst (λ cs. IsBytes cs) cut v in
      let (s, e) = nine_bytes word rest (IsBytes-front word rest whole.1) wl in
      rw cut (count_panics _ (from_le_bytes word) s e large),
)
