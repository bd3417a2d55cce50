-- ===== src/Encoding/Ip.antt =====
-- IP addresses of compact_encoding.rs. A `&str` is its UTF-8 bytes; what the code uses of the
-- standard library's `split`, `u8::parse` and `{}` on a `u8` is written out. The text forms of
-- IPv6 addresses, `Ipv6Addr`'s `parse` and `to_string`, are parameters.
pub mod Text
pub mod Laws
use peeroxide.Common.{
  ℕ, suc, ◌+◌, ◌-◌, ◌*◌, ◌/◌, ◌%◌, Bool, true, false, ◌&&◌, ◌||◌, ltb, leb, ◌==◌, if◌then◌else◌,
  Option, none, some, List, [], ◌∷◌, ◌++◌, length,
}
use peeroxide.Encoding.State.{
  State, M, ◌>>=◌, ◌>>◌, pure, raise, reserve, advance, load, store, load_slice, store_slice,
  check_remaining, invalid_ipv4, invalid_ipv6, invalid_ip_family,
}
use peeroxide.Encoding.Words.{
  preencode_uint8, encode_uint8, decode_uint8, encode_uint16, decode_uint16,
}

-- `c` in front of the first part.
abbrev pub extend_first : ℕ → List (List ℕ) → List (List ℕ)
extend_first c [] = (c ∷ []) ∷ []
extend_first c (p ∷ ps) = (c ∷ p) ∷ ps

-- `addr.split('.')`
unfoldable pub split_dots : List ℕ → List (List ℕ)
split_dots [] = [] ∷ []
split_dots (c ∷ cs) = if c == b'.' then [] ∷ split_dots cs else extend_first c (split_dots cs)

unfoldable pub contains_byte : ℕ → List ℕ → Bool
contains_byte x [] = false
contains_byte x (c ∷ cs) = c == x || contains_byte x cs

-- `str::parse::<u8>`: an optional `+`, then digits, at least one, of a value up to 255.
unfoldable pub parse_digits : ℕ → List ℕ → Option ℕ
parse_digits acc [] = some acc
parse_digits acc (c ∷ cs) =
    let next = acc * 10 + (c - b'0') in
    let rest = parse_digits next cs in
    if leb b'0' c && leb c b'9' && leb next 255 then rest else none

unfoldable pub parse_some_digits : List ℕ → Option ℕ
unfolding parse_digits
parse_some_digits [] = none
parse_some_digits (c ∷ cs) = parse_digits 0 (c ∷ cs)

unfoldable pub parse_u8 : List ℕ → Option ℕ
unfolding parse_some_digits
parse_u8 [] = none
parse_u8 (c ∷ cs) = if c == b'+' then parse_some_digits cs else parse_some_digits (c ∷ cs)

-- `format!("{}", b)` of a `u8`.
unfoldable pub show_u8 : ℕ → List ℕ
show_u8 b =
    if ltb b 10
    then (b'0' + b) ∷ []
    else if ltb b 100
    then (b'0' + b / 10) ∷ (b'0' + b % 10) ∷ []
    else (b'0' + b / 100) ∷ (b'0' + b / 10 % 10) ∷ (b'0' + b % 10) ∷ []

unfoldable pub dotted : ℕ → ℕ → ℕ → ℕ → List ℕ
dotted b0 b1 b2 b3 =
    show_u8 b0 ++ (b'.' ∷ (show_u8 b1 ++ (b'.' ∷ (show_u8 b2 ++ (b'.' ∷ show_u8 b3)))))

unfoldable pub preencode_ipv4 : List ℕ → State → State
preencode_ipv4 addr s = reserve 4 s

-- One round of the loop over the parts.
unfoldable pub encode_parts : List ℕ → List (List ℕ) → M (Unit {0})
encode_parts addr [] = pure tt
encode_parts addr (p ∷ ps) = elim (parse_u8 p) [
  | none ↦ raise (invalid_ipv4 addr)
  | some b ↦ (do store 0 b; advance 1; encode_parts addr ps)
]

unfoldable pub encode_ipv4 : List ℕ → M (Unit {0})
unfolding encode_parts
encode_ipv4 addr =
    if length (split_dots addr) == 4
    then encode_parts addr (split_dots addr)
    else raise (invalid_ipv4 addr)

unfoldable pub decode_ipv4 : M (List ℕ)
decode_ipv4 = do
  check_remaining 4
  b0 ← load 0
  b1 ← load 1
  b2 ← load 2
  b3 ← load 3
  advance 4
  pure (dotted b0 b1 b2 b3)

unfoldable pub preencode_ipv6 : List ℕ → State → State
preencode_ipv6 addr s = reserve 16 s

unfoldable pub preencode_ip : List ℕ → State → State
preencode_ip addr s =
    if contains_byte b':' addr
    then preencode_ipv6 addr (preencode_uint8 6 s)
    else preencode_ipv4 addr (preencode_uint8 4 s)

unfoldable pub preencode_ipv4_address : List ℕ × ℕ → State → State
preencode_ipv4_address (addr, port) s = reserve 2 (preencode_ipv4 addr s)

unfoldable pub encode_ipv4_address : List ℕ × ℕ → M (Unit {0})
encode_ipv4_address (addr, port) = do encode_ipv4 addr; encode_uint16 port

unfoldable pub decode_ipv4_address : M (List ℕ × ℕ)
decode_ipv4_address = do addr ← decode_ipv4; port ← decode_uint16; pure (addr, port)

unfoldable pub preencode_ipv6_address : List ℕ × ℕ → State → State
preencode_ipv6_address (addr, port) s = reserve 2 (preencode_ipv6 addr s)

-- The text of an IPv6 address to its 16 octets, and back.
module _ (parse6 : List ℕ → Option (List ℕ)) where
  unfoldable pub encode_ipv6 : List ℕ → M (Unit {0})
  encode_ipv6 addr = elim (parse6 addr) [
    | none ↦ raise (invalid_ipv6 addr)
    | some octets ↦ (do store_slice octets; advance 16)
  ]

  unfoldable pub encode_ip : List ℕ → M (Unit {0})
  encode_ip addr =
      if contains_byte b':' addr
      then (do encode_uint8 6; encode_ipv6 addr)
      else (do encode_uint8 4; encode_ipv4 addr)

  unfoldable pub encode_ipv6_address : List ℕ × ℕ → M (Unit {0})
  encode_ipv6_address (addr, port) = do encode_ipv6 addr; encode_uint16 port

module _ (show6 : List ℕ → List ℕ) where
  unfoldable pub decode_ipv6 : M (List ℕ)
  decode_ipv6 = do check_remaining 16; octets ← load_slice 16; advance 16; pure (show6 octets)

  unfoldable pub decode_family : ℕ → M (List ℕ)
  decode_family family =
      if family == 4
      then decode_ipv4
      else if family == 6
      then decode_ipv6
      else raise (invalid_ip_family family)

  unfoldable pub decode_ip : M (List ℕ)
  unfolding decode_family
  decode_ip = do family ← decode_uint8; decode_family family

  unfoldable pub decode_ipv6_address : M (List ℕ × ℕ)
  decode_ipv6_address = do addr ← decode_ipv6; port ← decode_uint16; pure (addr, port)
