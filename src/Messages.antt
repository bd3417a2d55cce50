-- ===== src/Messages.antt =====
-- peeroxide-dht/src/messages.rs: requests and responses of the DHT on the wire.
pub mod Flags
pub mod Commands
pub mod Responses
pub mod Safety
pub mod Whole
pub mod Fields
pub mod Requests
pub mod Peers
pub mod Codec
use peeroxide.Common.{
  ℕ, ◌+◌, ◌*◌, ◌/◌, ◌%◌, ◌^◌, Bool, true, false, not, ◌==◌, if◌then◌else◌, Option, none, some, List,
  [], ◌∷◌, length, bit_and, bit_or,
}
use peeroxide.Encoding.State.{
  State, Outcome, ok, err, panic, EncodingError, out_of_bounds, invalid_ip_family, M, ◌>>=◌, ◌>>◌,
  pure, new, from_buffer, alloc, reserve, advance, store,
}
use peeroxide.Encoding.Words.{encode_uint8, decode_uint8, encode_uint16, decode_uint16}
use peeroxide.Encoding.Uint.{preencode_uint, encode_uint, decode_uint}
use peeroxide.Encoding.Bytes.{
  preencode_buffer, encode_buffer, decode_buffer, encode_fixed32, decode_fixed32,
}
use peeroxide.Encoding.Ip.{encode_ipv4, decode_ipv4}
use peeroxide.Encoding.Arrays.{encode_each, decode_count}

pub data Command : Type 0 where
  ping ping_nat find_node down_hint delayed_ping : Command

unfoldable pub from_u64 : ℕ → Option Command
from_u64 v =
    if v == 0
    then some ping
    else if v == 1
    then some ping_nat
    else if v == 2
    then some find_node
    else if v == 3
    then some down_hint
    else if v == 4
    then some delayed_ping
    else none

-- `command as u64`
unfoldable pub command_code : Command → ℕ
command_code ping = 0
command_code ping_nat = 1
command_code find_node = 2
command_code down_hint = 3
command_code delayed_ping = 4

abbrev pub version : ℕ
version = 3

abbrev pub request_id : ℕ
request_id = version

abbrev pub response_id : ℕ
response_id = bit_or (1 * 2 ^ 4) version

abbrev pub flag_id : ℕ
flag_id = 1

abbrev pub flag_token : ℕ
flag_token = 2

abbrev pub flag_internal_or_closer : ℕ
flag_internal_or_closer = 4

abbrev pub flag_target_or_error : ℕ
flag_target_or_error = 8

abbrev pub flag_value : ℕ
flag_value = 16

pub record Ipv4Peer : Type 0 where
  pub host : List ℕ
  pub port : ℕ

pub record Request : Type 0 where
  pub tid : ℕ
  pub to : Ipv4Peer
  pub id : Option (List ℕ)
  pub token : Option (List ℕ)
  pub internal : Bool
  pub command : ℕ
  pub target : Option (List ℕ)
  pub value : Option (List ℕ)

pub record Response : Type 0 where
  pub tid : ℕ
  pub to : Ipv4Peer
  pub id : Option (List ℕ)
  pub token : Option (List ℕ)
  pub closer_nodes : List Ipv4Peer
  pub error : ℕ
  pub value : Option (List ℕ)

pub data Message : Type 0 where
  request : Request → Message
  response : Response → Message

-- The result of a whole call, its cursor dropped.
pub data Result (A : Type 0) : Type 0 where
  done : A → Result A
  failed : EncodingError → Result A
  panicked : Result A

abbrev pub result : {A B : Type 0} → (A → State → B) → Outcome A → Result B
result f (ok a s) = done (f a s)
result f (err e s) = failed e
result f panic = panicked

unfoldable pub preencode_ipv4_peer : Ipv4Peer → State → State
preencode_ipv4_peer peer s = reserve 6 s

unfoldable pub encode_ipv4_peer : Ipv4Peer → M (Unit {0})
encode_ipv4_peer peer = do
  encode_ipv4 peer.host
  store 0 (peer.port % 256)
  store 1 (peer.port / 256 % 256)
  advance 2

unfoldable pub decode_ipv4_peer : M Ipv4Peer
decode_ipv4_peer = do
  host ← decode_ipv4
  port ← decode_uint16
  pure (record { host = host; port = port })

unfoldable pub preencode_ipv4_array : List Ipv4Peer → State → State
preencode_ipv4_array peers s = reserve (length peers * 6) (preencode_uint (length peers) s)

unfoldable pub encode_ipv4_array : List Ipv4Peer → M (Unit {0})
encode_ipv4_array peers = do encode_uint (length peers); encode_each encode_ipv4_peer peers

unfoldable pub decode_ipv4_array : M (List Ipv4Peer)
decode_ipv4_array = do len ← decode_uint; decode_count decode_ipv4_peer len

abbrev pub is_some : {A : Type 0} → Option A → Bool
is_some none = false
is_some (some a) = true

abbrev pub is_empty : {A : Type 0} → List A → Bool
is_empty [] = true
is_empty (x ∷ xs) = false

-- `if b { flags |= f; }`, and `flags & f != 0`.
abbrev pub add_flag : Bool → ℕ → ℕ → ℕ
add_flag b f flags = if b then bit_or flags f else flags

abbrev pub has_flag : ℕ → ℕ → Bool
has_flag flags f = not (bit_and flags f == 0)

-- `if f.is_some() { state.end += 32; }`, and the writer and reader of such a field.
unfoldable pub preencode_present : Option (List ℕ) → State → State
preencode_present none s = s
preencode_present (some b) s = reserve 32 s

unfoldable pub encode_present : Option (List ℕ) → M (Unit {0})
encode_present none = pure tt
encode_present (some b) = encode_fixed32 b

unfoldable pub decode_present : Bool → M (Option (List ℕ))
decode_present true = do b ← decode_fixed32; pure (some b)
decode_present false = pure none

unfoldable pub preencode_value : Option (List ℕ) → State → State
preencode_value none s = s
preencode_value (some b) s = preencode_buffer (some b) s

unfoldable pub encode_value : Option (List ℕ) → M (Unit {0})
encode_value none = pure tt
encode_value (some b) = encode_buffer (some b)

unfoldable pub decode_value : Bool → M (Option (List ℕ))
decode_value true = decode_buffer
decode_value false = pure none

-- The five flags of a message, added in the order of the source.
unfoldable pub pack_flags : Bool → Bool → Bool → Bool → Bool → ℕ
pack_flags id token third fourth value = add_flag value flag_value (
    add_flag fourth flag_target_or_error
      (add_flag third flag_internal_or_closer (add_flag token flag_token (add_flag id flag_id 0))))
