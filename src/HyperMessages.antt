-- ===== src/HyperMessages.antt =====
-- peeroxide-dht/src/hyperdht_messages.rs: the constants, and what its messages are made of:
-- optional fields, addresses and arrays of addresses.
pub mod Parts
pub mod Flags
pub mod Announce
pub mod Mutable
pub mod Routing
pub mod Noise
pub mod Punch
use peeroxide.Common.{ℕ, ◌+◌, ◌*◌, Bool, true, false, Option, none, some, List, [], ◌∷◌, length}
use peeroxide.Encoding.State.{State, M, ◌>>=◌, ◌>>◌, pure, reserve, new, from_buffer, alloc}
use peeroxide.Encoding.Uint.{preencode_uint, encode_uint, decode_uint}
use peeroxide.Encoding.Bytes.{decode_buffer}
use peeroxide.Encoding.Ip.{
  encode_ipv4_address, decode_ipv4_address, encode_ipv6_address, decode_ipv6_address,
}
use peeroxide.Encoding.Arrays.{encode_each, decode_count}
use peeroxide.Messages.{Ipv4Peer, Result, result}

abbrev pub peer_handshake : ℕ
peer_handshake = 0

abbrev pub peer_holepunch : ℕ
peer_holepunch = 1

abbrev pub find_peer : ℕ
find_peer = 2

abbrev pub lookup : ℕ
lookup = 3

abbrev pub announce : ℕ
announce = 4

abbrev pub unannounce : ℕ
unannounce = 5

abbrev pub mutable_put : ℕ
mutable_put = 6

abbrev pub mutable_get : ℕ
mutable_get = 7

abbrev pub immutable_put : ℕ
immutable_put = 8

abbrev pub immutable_get : ℕ
immutable_get = 9

abbrev pub firewall_unknown : ℕ
firewall_unknown = 0

abbrev pub firewall_open : ℕ
firewall_open = 1

abbrev pub firewall_consistent : ℕ
firewall_consistent = 2

abbrev pub firewall_random : ℕ
firewall_random = 3

abbrev pub mode_from_client : ℕ
mode_from_client = 0

abbrev pub mode_from_server : ℕ
mode_from_server = 1

abbrev pub mode_from_relay : ℕ
mode_from_relay = 2

abbrev pub mode_from_second_relay : ℕ
mode_from_second_relay = 3

abbrev pub mode_reply : ℕ
mode_reply = 4

abbrev pub error_none : ℕ
error_none = 0

abbrev pub error_aborted : ℕ
error_aborted = 1

abbrev pub error_version_mismatch : ℕ
error_version_mismatch = 2

abbrev pub error_try_later : ℕ
error_try_later = 3

abbrev pub error_seq_reused : ℕ
error_seq_reused = 16

abbrev pub error_seq_too_low : ℕ
error_seq_too_low = 17

-- `if let Some(x) = &m.f { … }` in the size and the writer, `if flags & F != 0 { Some(…) } else { None }`
-- in the reader.
module _ {A : Type 0} where
  abbrev pub preencode_some : (A → State → State) → Option A → State → State
  preencode_some p none s = s
  preencode_some p (some a) s = p a s

  abbrev pub encode_some : (A → M (Unit {0})) → Option A → M (Unit {0})
  encode_some w none = pure tt
  encode_some w (some a) = w a

  abbrev pub decode_some : M A → Bool → M (Option A)
  decode_some d true = do a ← d; pure (some a)
  decode_some d false = pure none

  -- The same with an empty list for the absent value.
  abbrev pub preencode_filled : (List A → State → State) → List A → State → State
  preencode_filled p [] s = s
  preencode_filled p (x ∷ xs) s = p (x ∷ xs) s

  abbrev pub encode_filled : (List A → M (Unit {0})) → List A → M (Unit {0})
  encode_filled w [] = pure tt
  encode_filled w (x ∷ xs) = w (x ∷ xs)

  abbrev pub decode_filled : M (List A) → Bool → M (List A)
  decode_filled d true = d
  decode_filled d false = pure []

  -- The two calls on whole buffers that every message has.
  abbrev pub to_bytes : (A → State → State) → (A → M (Unit {0})) → A → Result (List ℕ)
  to_bytes p w m = result (λ u s. s.buffer) (w m (alloc (p m new)))

  abbrev pub from_bytes : M A → List ℕ → Result A
  from_bytes d buf = result (λ m s. m) (d (from_buffer buf))

-- `decode_buffer(state)?.unwrap_or_default()`
abbrev pub or_default : Option (List ℕ) → List ℕ
or_default none = []
or_default (some b) = b

unfoldable pub decode_bytes : M (List ℕ)
decode_bytes = do b ← decode_buffer; pure (or_default b)

-- An address as a field: six bytes.
unfoldable pub preencode_address : Ipv4Peer → State → State
preencode_address addr s = reserve 6 s

unfoldable pub encode_address : Ipv4Peer → M (Unit {0})
encode_address addr = encode_ipv4_address (addr.host, addr.port)

unfoldable pub decode_address : M Ipv4Peer
decode_address = do a ← decode_ipv4_address; pure (record { host = a.0; port = a.1 })

unfoldable pub preencode_ipv4_peer_array : List Ipv4Peer → State → State
preencode_ipv4_peer_array peers s = reserve (length peers * 6) (preencode_uint (length peers) s)

unfoldable pub encode_ipv4_peer_array : List Ipv4Peer → M (Unit {0})
encode_ipv4_peer_array peers = do encode_uint (length peers); encode_each encode_address peers

unfoldable pub decode_ipv4_peer_array : M (List Ipv4Peer)
decode_ipv4_peer_array = do len ← decode_uint; decode_count decode_address len

unfoldable pub preencode_ipv6_peer_array : List Ipv4Peer → State → State
preencode_ipv6_peer_array peers s = reserve (length peers * 18) (preencode_uint (length peers) s)

-- `parse6` and `show6` are the text forms of IPv6 addresses.
unfoldable pub encode_address6 : (List ℕ → Option (List ℕ)) → Ipv4Peer → M (Unit {0})
encode_address6 parse6 addr = encode_ipv6_address parse6 (addr.host, addr.port)

unfoldable pub decode_address6 : (List ℕ → List ℕ) → M Ipv4Peer
decode_address6 show6 = do a ← decode_ipv6_address show6; pure (record { host = a.0; port = a.1 })

unfoldable pub encode_ipv6_peer_array : (List ℕ → Option (List ℕ)) → List Ipv4Peer → M (Unit {0})
encode_ipv6_peer_array parse6 peers = do
  encode_uint (length peers)
  encode_each (encode_address6 parse6) peers

unfoldable pub decode_ipv6_peer_array : (List ℕ → List ℕ) → M (List Ipv4Peer)
decode_ipv6_peer_array show6 = do len ← decode_uint; decode_count (decode_address6 show6) len
