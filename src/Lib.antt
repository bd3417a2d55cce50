-- ===== src/Lib.antt =====
-- Verification library of peeroxide, a peer-to-peer stack of a UDP transport (libudx), a Kademlia
-- DHT (peeroxide-dht), a swarm (peeroxide) and a command line (peeroxide-cli).
--
-- How the modelled parts meet: a DHT message is laid out by messages.rs, field by field, through
-- the cursor of compact_encoding.rs; the sender measures a message, allocates the buffer and fills
-- it, the receiver decodes the datagram. The nodes that answer are kept in the routing table of
-- routing_table.rs, from which the closest ones are returned. The messages of hyperdht_messages.rs
-- use the same cursor; they travel as the values of DHT messages, and the store of persistent.rs
-- decodes them, checks them and keeps what they announce. From the addresses that other nodes
-- report, nat.rs judges the firewall that a handshake then states. Stream data travels in packets
-- that begin with the header of header.rs; their rate follows the bandwidth that filter.rs keeps,
-- and the bucket of pacing.rs holds them to it. Of the programs above, the dead drop cuts a file
-- into chunks under an index tree, whose shape tree.rs computes.
--
-- Common         shared names, Boolean tests on numbers, list operations, bit operations, maps
-- Encoding       peeroxide-dht/src/compact_encoding.rs. `State` is the struct; a call on
--                `&mut State` is a function from a state to an `Outcome`: a value, an error, or
--                a panic, which is an index out of the buffer. Each kind of value has its
--                `preencode_`, `encode_` and `decode_` function, named as in the source.
--                State: the cursor; Words: fixed widths; Uint, Signed, Bytes, Ip, Arrays: the
--                other kinds; Laws: what the three functions of a kind owe one another;
--                RoundTrips and Bounds: what follows for whole buffers and for arbitrary bytes;
--                Uint/Shape: the bytes that a number of 2^32 or more is read from.
-- Messages       peeroxide-dht/src/messages.rs: the types, flags and optional fields; Messages/Codec.antt:
--                requests, responses and decode_message.
-- HyperMessages  peeroxide-dht/src/hyperdht_messages.rs: what the messages share; its children have
--                the messages: Announce (peers, announcements, lookup replies), Mutable, Routing
--                (handshake and holepunch requests), Noise (the handshake's payload), Punch (the
--                payload of a holepunch round). A message's laws stand in its `Laws` and `Safety`,
--                and are put together from those of its fields (Encoding/Fields.antt, Parts, Flags).
-- Crypto         peeroxide-dht/src/crypto.rs: the buffers that are signed.
-- Nat            peeroxide-dht/src/nat.rs: `Nat` and its methods. Samples and Bag: the order and the
--                counts of the samples; Calls: sequences of calls; Classify and Sampling.
-- Store          peeroxide-dht/src/persistent.rs. Lru and Records: the two caches; Handlers: the
--                requests; `Handled` is what a handler leaves and replies.
-- Table          peeroxide-dht/src/routing_table.rs: the table, `add`, `remove` and the lookups;
--                Table/Scan.antt: `closest`, whose panic is `none`, `recent` and
--                `rebuild_with_id`. A method on `&mut self` returns the table and its result.
-- Header         libudx/src/native/header.rs: Header::encode_into, Header::decode, the SACK ranges.
--                A write out of the buffer is `none`, a read out of it `crashed`.
-- Filter         libudx/src/native/congestion/filter.rs: WindowedMaxFilter and its update.
-- Delivery       libudx/src/native/congestion/rate.rs: the rate samples.
-- Pacing         libudx/src/native/congestion/pacing.rs: TokenBucket.
-- Tree           peeroxide-cli/src/cmd/deaddrop/v2/tree.rs; the sizes of v2/wire.rs; the
--                number of chunks, the depth and the layout of the index tree of a file.
-- Examples       tests, and the theorems at concrete data.
--
-- Numbers: a byte is a number below 256 and a word of w bits one below 2^w; casts and shifts keep
-- their `% 2 ^ w`; a signed word is its bit pattern. `usize` sums are exact, since they measure
-- buffers in memory; a vector's capacity of 2^63 bytes or more is a panic, a reference being
-- 8 bytes and a `HyperPeer` 56. The counters of nat.rs keep their `% 2 ^ 32`. Times are numbers,
-- of seconds in Store and nanoseconds in Pacing and Delivery, and `duration_since` stops at 0.
-- Floats on the wire are bit patterns; the samples of the filter are any type with a test that
-- stands for `>=`. Strings are their UTF-8 bytes. All loops are
-- structural recursion on a list or a count, but for that of canonical_depth, which has n rounds
-- of fuel for n chunks: a round leaves fewer chunks, and the loop stops at 30. The depth that the
-- results speak of is that of the whole loop.
--
-- Parameters: `String::from_utf8_lossy` is `lossy`, and the text forms of IPv6 addresses are `parse6`
-- and `show6`. `binary_search_by` is written as a scan: in a bucket whose ids ascend strictly the
-- position that the standard library documents is unique. `get_mut` takes what its caller does to
-- the node as a function. A `HashMap` is the list of its entries in some order of iteration. The
-- clock is an argument, read once by each handler. The BLAKE2b digest and the check of signatures
-- are `digest` and `verify_detached`; the results of the pings of `auto_sample` are an argument.
--
-- Not modelled: RoutingTable::random, which draws a random number; sockets, timers and tasks; the
-- third-party cryptography; and the rest of the stack:
-- streams and the rest of congestion control, the RPC engine, HyperDHT, the secure channel, the
-- swarm and the command line.
pub mod Common
pub mod Crypto
pub mod Delivery
pub mod Encoding
pub mod Examples
pub mod Filter
pub mod Header
pub mod HyperMessages
pub mod Messages
pub mod Nat
pub mod Pacing
pub mod Store
pub mod Table
pub mod Tree
