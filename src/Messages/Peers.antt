-- ===== src/Messages/Peers.antt =====
-- Peer addresses and arrays of them on the wire.
use peeroxide.Common.{
  ℕ, ◌*◌, ◌^◌, ◌<◌, ◌≤◌, ◌≡◌, refl, sym, ap, ◌∙◌, Option, none, some, List, [], ◌∷◌, ◌++◌, map,
  arith, All, length, length-append,
}
use peeroxide.Encoding.State.{reserve}
use peeroxide.Encoding.Laws.{
  Codes, Safe, Writes-bind, Writes-eq, Reads-bind, Reads-return, Reads-val, Reads-eq, Safe-bind,
  Safe-pure,
}
use peeroxide.Encoding.Words.{to_le_bytes, encode_uint16}
use peeroxide.Encoding.Words.Narrow.{Writes-uint16, Reads-uint16}
use peeroxide.Encoding.Words.Safety.{Safe-uint16}
use peeroxide.Encoding.Uint.Laws.{uint_bytes, Codes-uint}
use peeroxide.Encoding.Ip.{dotted, split_dots, parse_u8}
use peeroxide.Encoding.Ip.Text.{split_dots-dotted, parse_u8-show_u8}
use peeroxide.Encoding.Ip.Laws.{IsIpv4-dotted, Codes-ipv4, Safe-ipv4}
use peeroxide.Encoding.Arrays.Laws.{joined, EachCodes, Codes-array, Safe-array}
use peeroxide.Encoding.Arrays.{max_array_length}
use peeroxide.Messages.{
  Ipv4Peer, preencode_ipv4_peer, encode_ipv4_peer, decode_ipv4_peer, preencode_ipv4_array,
  encode_ipv4_array, decode_ipv4_array,
}

abbrev value_of : Option ℕ → ℕ
value_of none = 0
value_of (some b) = b

-- The four bytes of a host, and the six of a peer.
host_bytes : List ℕ → List ℕ
host_bytes host = map (λ p. value_of (parse_u8 p)) (split_dots host)

pub peer_bytes : Ipv4Peer → List ℕ
peer_bytes p = host_bytes p.host ++ to_le_bytes 2 p.port

-- A peer as a decoder makes it: a dotted host in its shortest spelling, and a 16-bit port.
pub record IsPeer (p : Ipv4Peer) : Type 0 where
  pub a : ℕ
  pub b : ℕ
  pub c : ℕ
  pub d : ℕ
  pub byte_a : a < 256
  pub byte_b : b < 256
  pub byte_c : c < 256
  pub byte_d : d < 256
  pub spelled : p.host ≡ dotted a b c d
  pub short : p.port < 2 ^ 16

host_bytes-dotted :
    (a b c d : ℕ)
    → a < 256
    → b < 256
    → c < 256
    → d < 256
    → host_bytes (dotted a b c d) ≡ a ∷ b ∷ c ∷ d ∷ []
unfolding host_bytes
host_bytes-dotted a b c d ha hb hc hd = rw (
  split_dots-dotted a b c d ha hb hc hd,
  parse_u8-show_u8 a ha,
  parse_u8-show_u8 b hb,
  parse_u8-show_u8 c hc,
  parse_u8-show_u8 d hd,
)

peer_bytes_lem :
    (p : Ipv4Peer) (v : IsPeer p) → peer_bytes p ≡ v.a ∷ v.b ∷ v.c ∷ v.d ∷ to_le_bytes 2 p.port
unfolding peer_bytes
peer_bytes_lem p v =
    rw (v.spelled, host_bytes-dotted v.a v.b v.c v.d v.byte_a v.byte_b v.byte_c v.byte_d)

pub length-peer_bytes : (p : Ipv4Peer) → IsPeer p → length (peer_bytes p) ≡ 6
length-peer_bytes p v = ap length (peer_bytes_lem p v)

pub Codes-ipv4_peer :
    (p : Ipv4Peer)
    → IsPeer p
    → Codes preencode_ipv4_peer encode_ipv4_peer decode_ipv4_peer p p (peer_bytes p)
unfolding preencode_ipv4_peer encode_ipv4_peer decode_ipv4_peer encode_uint16
Codes-ipv4_peer p v =
    let host =
      Codes-ipv4 (dotted v.a v.b v.c v.d) v.a v.b v.c v.d
        (IsIpv4-dotted v.a v.b v.c v.d v.byte_a v.byte_b v.byte_c v.byte_d) in
    record {
      sized = λ s. ap (λ n. reserve n s) (sym (length-peer_bytes p v));
      written =
          Writes-eq (sym (peer_bytes_lem p v))
            (rw v.spelled (Writes-bind host.written (Writes-uint16 p.port)));
      read = Reads-eq (sym (peer_bytes_lem p v)) (
          Reads-val (named p v) (
            Reads-bind _ host.read (
              Reads-return (λ port. record { host = dotted v.a v.b v.c v.d; port = port })
                (Reads-uint16 p.port v.short))));
    }
  where
    named :
        (q : Ipv4Peer) (u : IsPeer q) → record { host = dotted u.a u.b u.c u.d; port = q.port } ≡ q
    named q u = λ i. record { host = sym u.spelled i; port = q.port }

pub Safe-ipv4_peer : Safe decode_ipv4_peer
unfolding decode_ipv4_peer
Safe-ipv4_peer = Safe-bind _ Safe-ipv4 (λ h. Safe-bind _ Safe-uint16 (λ p. Safe-pure _))

each_peer :
    (ps : List Ipv4Peer)
    → All IsPeer ps
    → EachCodes preencode_ipv4_peer encode_ipv4_peer decode_ipv4_peer (λ p. p) peer_bytes ps
each_peer [] h = tt
each_peer (p ∷ ps) h = (Codes-ipv4_peer p h.0, each_peer ps h.1)

length-joined : (ps : List Ipv4Peer) → All IsPeer ps → length (joined peer_bytes ps) ≡ length ps * 6
length-joined [] h = refl
length-joined (p ∷ ps) h = omega (
  arith,
  length-append (peer_bytes p) (joined peer_bytes ps),
  length-peer_bytes p h.0,
  length-joined ps h.1,
)

map_same : (ps : List Ipv4Peer) → map (λ p. p) ps ≡ ps
map_same [] = refl
map_same (p ∷ ps) = ap (λ qs. p ∷ qs) (map_same ps)

abbrev pub peers_bytes : List Ipv4Peer → List ℕ
peers_bytes ps = uint_bytes (length ps) ++ joined peer_bytes ps

pub Codes-ipv4_array :
    (ps : List Ipv4Peer)
    → length ps ≤ max_array_length
    → All IsPeer ps
    → Codes preencode_ipv4_array encode_ipv4_array decode_ipv4_array ps ps (peers_bytes ps)
unfolding preencode_ipv4_array encode_ipv4_array decode_ipv4_array
Codes-ipv4_array ps n h =
    let c =
      Codes-array preencode_ipv4_peer encode_ipv4_peer decode_ipv4_peer (λ p. p) peer_bytes ps n
        (each_peer ps h) in
    record {
      sized = λ s.
          ap (reserve (length ps * 6)) ((Codes-uint (length ps) (omega arith)).sized s)
          ∙ ap (λ m. record s { end = m })
              (omega (
                arith,
                length-append (uint_bytes (length ps)) (joined peer_bytes ps),
                length-joined ps h,
              ));
      written = c.written;
      read = Reads-val (map_same ps) c.read;
    }

pub Safe-ipv4_array : Safe decode_ipv4_array
unfolding decode_ipv4_array
Safe-ipv4_array = Safe-array Safe-ipv4_peer
