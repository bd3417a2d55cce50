-- ===== src/Encoding/Ip/Laws.antt =====
-- IP addresses: size, writer and reader.
use peeroxide.Common.{
  ℕ, ◌^◌, ◌<◌, ◌≡◌, refl, sym, ap, true, false, Option, some, List, [], ◌∷◌, arith, length,
}
use peeroxide.Encoding.State.{◌>>=◌, ◌>>◌, invalid_ip_family, reserve, advance, store}
use peeroxide.Encoding.State.Laws.{
  check_remaining-fits, load-front, load-bounds, load_slice-front, load_slice-bounds, Safe-check,
  Writes-store_slice,
}
use peeroxide.Encoding.Laws.{
  Reads, Writes, Codes, Safe, Reads-bind, Reads-return, >>-assoc, Writes-nothing, Writes-bind,
  Safe-bind, Safe-pure, Safe-raise,
}
use peeroxide.Encoding.Words.{to_le_bytes, encode_uint8, preencode_uint8}
use peeroxide.Encoding.Words.Narrow.{Writes-uint8, Reads-uint8, Writes-uint16, Reads-uint16}
use peeroxide.Encoding.Words.Safety.{Safe-uint8, Safe-uint16}
use peeroxide.Encoding.Ip.Text.{parse_u8-show_u8, split_dots-dotted}
use peeroxide.Encoding.Ip.{
  split_dots, contains_byte, parse_u8, dotted, preencode_ipv4, encode_parts, encode_ipv4,
  decode_ipv4, preencode_ipv6, encode_ipv6, decode_ipv6, preencode_ip, encode_ip, decode_ip,
  decode_family, preencode_ipv4_address, encode_ipv4_address, decode_ipv4_address,
  decode_ipv6_address,
}

-- `addr` splits into four parts that parse to the bytes `a`, `b`, `c` and `d`.
pub record IsIpv4 (addr : List ℕ) (a b c d : ℕ) : Type 0 where
  pub p0 : List ℕ
  pub p1 : List ℕ
  pub p2 : List ℕ
  pub p3 : List ℕ
  pub split : split_dots addr ≡ p0 ∷ p1 ∷ p2 ∷ p3 ∷ []
  pub v0 : parse_u8 p0 ≡ some a
  pub v1 : parse_u8 p1 ≡ some b
  pub v2 : parse_u8 p2 ≡ some c
  pub v3 : parse_u8 p3 ≡ some d

pub IsIpv4-dotted :
    (a b c d : ℕ) → a < 256 → b < 256 → c < 256 → d < 256 → IsIpv4 (dotted a b c d) a b c d
IsIpv4-dotted a b c d ha hb hc hd = record {
  p0 = _;
  p1 = _;
  p2 = _;
  p3 = _;
  split = split_dots-dotted a b c d ha hb hc hd;
  v0 = parse_u8-show_u8 a ha;
  v1 = parse_u8-show_u8 b hb;
  v2 = parse_u8-show_u8 c hc;
  v3 = parse_u8-show_u8 d hd;
}

Writes-part :
    (addr p : List ℕ) (ps : List (List ℕ)) (b : ℕ) {bs : List ℕ}
    → parse_u8 p ≡ some b
    → Writes (encode_parts addr ps) bs
    → Writes (encode_parts addr (p ∷ ps)) (b ∷ bs)
unfolding encode_parts encode_uint8
Writes-part addr p ps b e w =
    rw (e, encode_parts)
      (rw (>>-assoc (store 0 b) (advance 1) (encode_parts addr ps))
        (Writes-bind (Writes-uint8 b) w))

Writes-four :
    (addr : List ℕ) (a b c d : ℕ)
    → IsIpv4 addr a b c d
    → Writes (encode_ipv4 addr) (a ∷ b ∷ c ∷ d ∷ [])
unfolding encode_ipv4
Writes-four addr a b c d v = rw v.split (
    Writes-part addr v.p0 (v.p1 ∷ v.p2 ∷ v.p3 ∷ []) a v.v0 (
      Writes-part addr v.p1 (v.p2 ∷ v.p3 ∷ []) b v.v1
        (Writes-part addr v.p2 (v.p3 ∷ []) c v.v2 (Writes-part addr v.p3 [] d v.v3 no_parts))))
  where
    no_parts : Writes (encode_parts addr []) []
    no_parts = unfold encode_parts in Writes-nothing

Reads-ipv4 : (a b c d : ℕ) → Reads decode_ipv4 (a ∷ b ∷ c ∷ d ∷ []) (dotted a b c d)
unfolding decode_ipv4 advance
Reads-ipv4 a b c d = record {
  at = λ s pre post hs hb he.
      let ys : List ℕ = a ∷ b ∷ c ∷ d ∷ post in
      simp (
        check_remaining-fits 4 s he,
        load-front 0 s pre ys hs hb,
        load-front 1 s pre ys hs hb,
        load-front 2 s pre ys hs hb,
        load-front 3 s pre ys hs hb,
        ◌>>=◌,
        ◌>>◌,
      );
}

-- Every address that is accepted is written as its four bytes and comes back in dotted form.
pub Codes-ipv4 :
    (addr : List ℕ) (a b c d : ℕ)
    → IsIpv4 addr a b c d
    → Codes preencode_ipv4 encode_ipv4 decode_ipv4 addr (dotted a b c d) (a ∷ b ∷ c ∷ d ∷ [])
unfolding preencode_ipv4
Codes-ipv4 addr a b c d v = record {
  sized = λ s. refl;
  written = Writes-four addr a b c d v;
  read = Reads-ipv4 a b c d;
}

pub Safe-ipv4 : Safe decode_ipv4
unfolding decode_ipv4 advance
Safe-ipv4 = Safe-check 4 _ λ s wf h.
    let (b0, e0) = load-bounds 0 s (omega arith) in
    let (b1, e1) = load-bounds 1 s (omega arith) in
    let (b2, e2) = load-bounds 2 s (omega arith) in
    let (b3, e3) = load-bounds 3 s (omega arith) in
    rw (e0, e1, e2, e3, ◌>>=◌, ◌>>◌) (refl, refl, omega arith, omega arith)

-- An address and its port.
pub Codes-ipv4_address :
    (addr : List ℕ) (a b c d port : ℕ)
    → IsIpv4 addr a b c d
    → port < 2 ^ 16
    → Codes preencode_ipv4_address encode_ipv4_address decode_ipv4_address
        (addr, port)
        (dotted a b c d, port)
        (a ∷ b ∷ c ∷ d ∷ to_le_bytes 2 port)
unfolding preencode_ipv4_address encode_ipv4_address decode_ipv4_address preencode_ipv4
Codes-ipv4_address addr a b c d port v h = record {
  sized = λ s. ap (λ n. record s { end = n }) (omega arith);
  written = Writes-bind (Codes-ipv4 addr a b c d v).written (Writes-uint16 port);
  read =
      Reads-bind _ (Reads-ipv4 a b c d)
        (Reads-return (λ p. (dotted a b c d, p)) (Reads-uint16 port h));
}

pub Safe-ipv4_address : Safe decode_ipv4_address
unfolding decode_ipv4_address
Safe-ipv4_address = Safe-bind _ Safe-ipv4 (λ a. Safe-bind _ Safe-uint16 (λ p. Safe-pure _))

module _ (show6 : List ℕ → List ℕ) where
  Reads-ipv6 :
      (octets : List ℕ) → length octets ≡ 16 → Reads (decode_ipv6 show6) octets (show6 octets)
  unfolding decode_ipv6 advance
  Reads-ipv6 octets h = record {
    at = λ s pre post hs hb he. rw (
      check_remaining-fits 16 s (omega arith),
      load_slice-front s pre octets post 16 hs hb (sym h),
      ◌>>=◌,
      ◌>>◌,
      h,
    );
  }

  pub Safe-ipv6 : Safe (decode_ipv6 show6)
  unfolding decode_ipv6 advance
  Safe-ipv6 = Safe-check 16 _ λ s wf h.
      let (b, e, l) = load_slice-bounds 16 s (omega arith) in
      rw (e, ◌>>=◌, ◌>>◌) (refl, refl, omega arith, omega arith)

  Safe-family : (f : ℕ) → Safe (decode_family show6 f)
  unfolding decode_family
  Safe-family f =
      ground (arith, Safe-ipv4, Safe-ipv6, Safe-raise {A = List ℕ} (invalid_ip_family f))

  pub Safe-ip : Safe (decode_ip show6)
  unfolding decode_ip
  Safe-ip = Safe-bind _ Safe-uint8 Safe-family

  pub Safe-ipv6_address : Safe (decode_ipv6_address show6)
  unfolding decode_ipv6_address
  Safe-ipv6_address = Safe-bind _ Safe-ipv6 (λ a. Safe-bind _ Safe-uint16 (λ p. Safe-pure _))

module _ (parse6 : List ℕ → Option (List ℕ)) (show6 : List ℕ → List ℕ) where
  -- An IPv6 address is written as the 16 octets that `parse6` makes of it.
  pub Codes-ipv6 :
      (addr octets : List ℕ)
      → parse6 addr ≡ some octets
      → length octets ≡ 16
      → Codes preencode_ipv6 (encode_ipv6 parse6) (decode_ipv6 show6) addr (show6 octets) octets
  unfolding preencode_ipv6 encode_ipv6
  Codes-ipv6 addr octets e h = record {
    sized = λ s. ap (λ n. reserve n s) (sym h);
    written = rw (e, encode_ipv6) (Writes-store_slice octets 16 (sym h));
    read = Reads-ipv6 show6 octets h;
  }

  pub Codes-ip_v4 :
      (addr : List ℕ) (a b c d : ℕ)
      → contains_byte b':' addr ≡ false
      → IsIpv4 addr a b c d
      → Codes preencode_ip
          (encode_ip parse6)
          (decode_ip show6)
          addr
          (dotted a b c d)
          (4 ∷ a ∷ b ∷ c ∷ d ∷ [])
  unfolding preencode_ip encode_ip decode_ip decode_family preencode_ipv4 preencode_uint8
  Codes-ip_v4 addr a b c d e v = record {
    sized = λ s. rw e (ap (λ n. record s { end = n }) (omega arith));
    written = rw e (Writes-bind (Writes-uint8 4) (Codes-ipv4 addr a b c d v).written);
    read = Reads-bind _ (Reads-uint8 4) (Reads-ipv4 a b c d);
  }

  pub Codes-ip_v6 :
      (addr octets : List ℕ)
      → contains_byte b':' addr ≡ true
      → parse6 addr ≡ some octets
      → length octets ≡ 16
      → Codes preencode_ip (encode_ip parse6) (decode_ip show6) addr (show6 octets) (6 ∷ octets)
  unfolding preencode_ip encode_ip decode_ip decode_family preencode_ipv6 preencode_uint8
  Codes-ip_v6 addr octets e p h = record {
    sized = λ s. rw e (ap (λ n. record s { end = n }) (omega arith));
    written = rw e (Writes-bind (Writes-uint8 6) (Codes-ipv6 addr octets p h).written);
    read = Reads-bind _ (Reads-uint8 6) (Reads-ipv6 show6 octets h);
  }
