-- ===== src/HyperMessages/Parts.antt =====
-- The fields that the messages of hyperdht_messages.rs are made of.
use peeroxide.Common.{
  ℕ, ◌+◌, ◌*◌, ◌^◌, ◌≤◌, ◌<◌, ◌≡◌, ◌≢◌, refl, sym, ap, ◌∙◌, subst, Bool, true, false, not, ltb,
  ◌==◌, Option, none, some, List, [], ◌∷◌, arith, All, length,
}
use peeroxide.Encoding.State.{State, Outcome, ok, err, panic, M, ◌>>=◌, ◌>>◌, reserve, from_buffer}
use peeroxide.Encoding.Laws.{Safe, Within, Safe-bind, Safe-pure}
use peeroxide.Encoding.Fields.{
  Field, field, Field-then, Field-last, Field-size, Field-val, Field-none, Field-uint,
  Field-RoundTrips,
}
use peeroxide.Encoding.Uint.{preencode_uint, encode_uint, decode_uint}
use peeroxide.Encoding.Bytes.{
  preencode_buffer, encode_buffer, encode_fixed32, decode_fixed32, encode_fixed64, decode_fixed64,
}
use peeroxide.Encoding.Bytes.Laws.{
  normal, Codes-buffer, Safe-buffer, Writes-fixed32, Reads-fixed32, Writes-fixed64, Reads-fixed64,
}
use peeroxide.Encoding.Ip.{
  preencode_ipv4_address, preencode_ipv4, preencode_ipv6, encode_ipv6_address, decode_ipv6_address,
}
use peeroxide.Encoding.Words.{preencode_uint16}
use peeroxide.Encoding.Ip.Laws.{
  IsIpv4, IsIpv4-dotted, Codes-ipv4_address, Safe-ipv4_address, Codes-ipv6, Safe-ipv6_address,
}
use peeroxide.Encoding.Words.Agree.{Codes-uint16}
use peeroxide.Encoding.Arrays.{
  max_array_length, preencode_each, encode_each, decode_times, decode_count,
}
use peeroxide.Encoding.Arrays.Laws.{Safe-array}
use peeroxide.Messages.{Ipv4Peer, is_some, is_empty, done, panicked, result}
use peeroxide.Messages.Codec.{
  preencode_error as preencode_nonzero, encode_error as encode_nonzero,
  decode_error as decode_nonzero,
}
use peeroxide.Messages.Fields.{Sizes-error, Writes-error, Reads-error, error_bytes}
use peeroxide.Messages.Peers.{IsPeer}
use peeroxide.HyperMessages.{
  preencode_some, encode_some, decode_some, preencode_filled, encode_filled, decode_filled,
  to_bytes, from_bytes, or_default, decode_bytes, preencode_address, encode_address, decode_address,
  preencode_ipv4_peer_array, encode_ipv4_peer_array, decode_ipv4_peer_array, encode_address6,
  decode_address6, preencode_ipv6_peer_array, encode_ipv6_peer_array, decode_ipv6_peer_array,
}

-- Bytes reserved at once or in parts.
pub reserve_two : (m n : ℕ) (s : State) → reserve (m + n) s ≡ reserve n (reserve m s)
reserve_two m n s = ap (λ k. record s { end = k }) (omega arith)

pub reserve_four : (s : State) → reserve 4 s ≡ reserve 1 (reserve 1 (reserve 1 (reserve 1 s)))
reserve_four s = ap (λ k. record s { end = k }) (omega arith)

abbrev pub Given : {A : Type 0} → (A → Type 0) → Option A → Type 0
Given P none = Unit
Given P (some a) = P a

pub Field-some :
    {A : Type 0} {p : A → State → State} {w : A → M (Unit {0})} {d : M A} (P : A → Type 0)
    → ((a : A) → P a → Field (p a) (w a) d a)
    → (o : Option A) {b : Bool} → Given P o
    → b ≡ is_some o
    → Field (preencode_some p o) (encode_some w o) (decode_some d b) o
Field-some P f none h e = rw e (Field-none none)
Field-some P f (some a) h e = rw e (Field-last some (f a h))

pub Field-filled :
    {A : Type 0} {p : List A → State → State} {w : List A → M (Unit {0})} {d : M (List A)}
    (P : List A → Type 0)
    → ((xs : List A) → P xs → Field (p xs) (w xs) d xs)
    → (xs : List A) {b : Bool} → P xs
    → b ≡ not (is_empty xs)
    → Field (preencode_filled p xs) (encode_filled w xs) (decode_filled d b) xs
Field-filled P f [] h e = rw e (Field-none [])
Field-filled P f (x ∷ xs) h e = rw e (f (x ∷ xs) h)

pub Field-nonzero :
    (n : ℕ) {b : Bool}
    → n < 2 ^ 64
    → b ≡ not (n == 0)
    → Field (preencode_nonzero n) (encode_nonzero n) (decode_nonzero b) n
Field-nonzero n h e = record {
  bytes = error_bytes n;
  sized = Sizes-error n h;
  written = Writes-error n h;
  read = Reads-error n e h;
}

pub Field-fixed32 :
    (k : List ℕ) → length k ≡ 32 → Field (reserve 32) (encode_fixed32 k) decode_fixed32 k
Field-fixed32 k h = record {
  bytes = k;
  sized = λ s. ap (λ n. reserve n s) (sym h);
  written = Writes-fixed32 k;
  read = Reads-fixed32 k h;
}

pub Field-fixed64 :
    (k : List ℕ) → length k ≡ 64 → Field (reserve 64) (encode_fixed64 k) decode_fixed64 k
Field-fixed64 k h = record {
  bytes = k;
  sized = λ s. ap (λ n. reserve n s) (sym h);
  written = Writes-fixed64 k;
  read = Reads-fixed64 k h;
}

or_default-normal : (v : List ℕ) → or_default (normal (some v)) ≡ v
or_default-normal [] = refl
or_default-normal (b ∷ bs) = refl

pub Field-bytes :
    (v : List ℕ)
    → length v < 2 ^ 64
    → Field (preencode_buffer (some v)) (encode_buffer (some v)) decode_bytes v
unfolding decode_bytes
Field-bytes v h =
    Field-val (or_default-normal v) (Field-last or_default (field (Codes-buffer (some v) h)))

pub Safe-bytes : Safe decode_bytes
unfolding decode_bytes
Safe-bytes = Safe-bind _ Safe-buffer (λ b. Safe-pure (or_default b))

pub Field-address :
    (p : Ipv4Peer) → IsPeer p → Field (preencode_address p) (encode_address p) decode_address p
unfolding preencode_address encode_address decode_address preencode_ipv4_address preencode_ipv4
Field-address p v =
    let spelled : IsIpv4 p.host v.a v.b v.c v.d =
      subst (λ h. IsIpv4 h v.a v.b v.c v.d) (sym v.spelled)
        (IsIpv4-dotted v.a v.b v.c v.d v.byte_a v.byte_b v.byte_c v.byte_d) in
    Field-val (λ i. record { host = sym v.spelled i; port = p.port })
      (Field-size (λ s. ap (λ n. record s { end = n }) (omega arith))
        (Field-last (λ a. record { host = a.0; port = a.1 })
          (field (Codes-ipv4_address p.host v.a v.b v.c v.d p.port spelled v.short))))

pub Safe-address : Safe decode_address
unfolding decode_address
Safe-address = Safe-bind _ Safe-ipv4_address (λ a. Safe-pure _)

pub Safe-some : {A : Type 0} {d : M A} → Safe d → (b : Bool) → Safe (decode_some d b)
Safe-some sd true = Safe-bind _ sd (λ a. Safe-pure (some a))
Safe-some sd false = Safe-pure none

pub Safe-filled : {A : Type 0} {d : M (List A)} → Safe d → (b : Bool) → Safe (decode_filled d b)
Safe-filled sd true = sd
Safe-filled sd false = Safe-pure []

module _ {A : Type 0} (p : A → State → State) (w : A → M (Unit {0})) (d : M A) (P : A → Type 0)
    (f : (a : A) → P a → Field (p a) (w a) d a) where
  pub Field-each :
      (xs : List A)
      → All P xs
      → Field (preencode_each p xs) (encode_each w xs) (decode_times d (length xs)) xs
  unfolding preencode_each encode_each decode_times
  Field-each [] h = Field-none []
  Field-each (x ∷ xs) (hx, hxs) =
      Field-then {q = preencode_each p xs} _ (f x hx)
        (Field-last (λ ys. x ∷ ys) (Field-each xs hxs))

  -- A count, and as many elements.
  pub Field-array :
      (xs : List A)
      → length xs ≤ max_array_length
      → All P xs
      → Field
          (λ s. preencode_each p xs (preencode_uint (length xs) s))
          (encode_uint (length xs) >> encode_each w xs)
          (decode_uint >>= decode_count d)
          xs
  unfolding decode_count
  Field-array xs n h =
      let front : ltb max_array_length (length xs) ≡ false = ground arith in
      Field-then {q = preencode_each p xs} {v = encode_each w xs} (decode_count d)
        (Field-uint (length xs) (omega arith)) (rw front (Field-each xs h))

-- Elements of `k` bytes each may be reserved at once.
pub preencode_each-reserve :
    {A : Type 0} (p : A → State → State) (k : ℕ)
    → ((a : A) (s : State) → p a s ≡ reserve k s)
    → (xs : List A) (s : State) → reserve (length xs * k) s ≡ preencode_each p xs s
unfolding preencode_each
preencode_each-reserve p k e [] s = ap (λ n. record s { end = n }) (omega arith)
preencode_each-reserve p k e (x ∷ xs) s =
    ap (λ n. record s { end = n }) (omega arith)
    ∙ preencode_each-reserve p k e xs (reserve k s)
    ∙ ap (preencode_each p xs) (sym (e x s))

abbrev pub ArePeers : List Ipv4Peer → Type 0
ArePeers ps = (length ps ≤ max_array_length) × All IsPeer ps

pub Field-addresses :
    (ps : List Ipv4Peer)
    → ArePeers ps
    → Field (preencode_ipv4_peer_array ps) (encode_ipv4_peer_array ps) decode_ipv4_peer_array ps
unfolding preencode_ipv4_peer_array encode_ipv4_peer_array decode_ipv4_peer_array preencode_address
Field-addresses ps (n, h) =
    Field-size
      (λ s.
        preencode_each-reserve preencode_address 6 (λ a t. refl) ps (preencode_uint (length ps) s))
      (Field-array preencode_address encode_address decode_address IsPeer Field-address ps n h)

pub Safe-addresses : Safe decode_ipv4_peer_array
unfolding decode_ipv4_peer_array
Safe-addresses = Safe-array Safe-address

-- What a field gives for the calls on whole buffers.
pub survives :
    {A : Type 0} (p : A → State → State) (w : A → M (Unit {0})) {d : M A} {a b : A}
    → Field (p a) (w a) d b
    → (bs : List ℕ) × (to_bytes p w a ≡ done bs) × (from_bytes d bs ≡ done b)
survives p w {a} x =
    let (s, wrote, full, took) = Field-RoundTrips p w a x in
    (s.buffer, ap (result (λ u t. t.buffer)) wrote, ap (result (λ m t. m)) took)

pub result-ne-panicked :
    {A : Type 0} (s : State) (o : Outcome A) → Within s o → result (λ m t. m) o ≢ panicked
result-ne-panicked s (ok a t) h e = cc
result-ne-panicked s (err x t) h e = cc
result-ne-panicked s panic h e = h

pub from_bytes-ne-panicked :
    {A : Type 0} {d : M A} → Safe d → (bs : List ℕ) → from_bytes d bs ≢ panicked
unfolding from_buffer
from_bytes-ne-panicked {d} sd bs =
    let s : State = from_buffer bs in
    result-ne-panicked s (d s) (sd.at s (omega arith, omega arith))

-- The two text forms of IPv6 addresses.
module _ (parse6 : List ℕ → Option (List ℕ)) (show6 : List ℕ → List ℕ) where
  -- A peer whose host parses to 16 octets, which are shown as that host.
  pub record IsPeer6 (p : Ipv4Peer) : Type 0 where
    pub octets : List ℕ
    pub parsed : parse6 p.host ≡ some octets
    pub width : length octets ≡ 16
    pub shown : show6 octets ≡ p.host
    pub short : p.port < 2 ^ 16

  abbrev pub ArePeers6 : List Ipv4Peer → Type 0
  ArePeers6 ps = (length ps ≤ max_array_length) × All IsPeer6 ps

  Field-address6 :
      (p : Ipv4Peer)
      → IsPeer6 p
      → Field (reserve 18) (encode_address6 parse6 p) (decode_address6 show6) p
  unfolding encode_address6 decode_address6 encode_ipv6_address decode_ipv6_address preencode_ipv6
      preencode_uint16
  Field-address6 p v =
      Field-val (λ i. record { host = v.shown i; port = p.port })
        (Field-size (λ s. ap (λ n. record s { end = n }) (omega arith))
          (Field-last (λ a. record { host = a.0; port = a.1 })
            (Field-then _ (field (Codes-ipv6 parse6 show6 p.host v.octets v.parsed v.width))
              (Field-last (λ q. (show6 v.octets, q)) (field (Codes-uint16 p.port v.short))))))

  pub Field-addresses6 :
      (ps : List Ipv4Peer)
      → ArePeers6 ps
      → Field
          (preencode_ipv6_peer_array ps)
          (encode_ipv6_peer_array parse6 ps)
          (decode_ipv6_peer_array show6)
          ps
  unfolding preencode_ipv6_peer_array encode_ipv6_peer_array decode_ipv6_peer_array
  Field-addresses6 ps (n, h) =
      Field-size
        (λ s.
          preencode_each-reserve (λ a. reserve 18) 18 (λ a t. refl) ps
            (preencode_uint (length ps) s))
        (Field-array (λ a. reserve 18) (encode_address6 parse6) (decode_address6 show6) IsPeer6
          Field-address6 ps n h)

pub Safe-addresses6 : (show6 : List ℕ → List ℕ) → Safe (decode_ipv6_peer_array show6)
unfolding decode_ipv6_peer_array decode_address6
Safe-addresses6 show6 = Safe-array (Safe-bind _ (Safe-ipv6_address show6) (λ a. Safe-pure _))
