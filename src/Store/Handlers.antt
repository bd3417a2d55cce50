-- ===== src/Store/Handlers.antt =====
-- persistent.rs: the handlers of requests. The digest and the check of signatures are parameters.
pub mod Routers
pub mod Values
use peeroxide.Common.{
  ℕ, ltb, leb, ◌==◌, ◌&&◌, not, if◌then◌else◌, Option, none, some, List, [], ◌∷◌, ◌++◌, Bool, true,
  false, length, take,
}
use peeroxide.Common.Dict.{Dict, same_bytes, lookup, insert, erase}
use peeroxide.Crypto
use peeroxide.Encoding.State.{from_buffer}
use peeroxide.Encoding.Uint.{preencode_uint, encode_uint, decode_uint}
use peeroxide.Messages.{Ipv4Peer, Result, done, failed, panicked, is_empty}
use peeroxide.HyperMessages.{to_bytes, from_bytes}
use peeroxide.HyperMessages.Announce.{
  HyperPeer, AnnounceMessage, LookupRawReply, encode_hyper_peer_to_bytes,
  decode_hyper_peer_from_bytes, decode_announce_from_bytes, encode_lookup_raw_reply_to_bytes,
}
use peeroxide.HyperMessages.Mutable.{
  MutablePutRequest, MutableGetResponse, decode_mutable_put_request_from_bytes,
  encode_mutable_get_response_to_bytes, decode_mutable_get_response_from_bytes,
}
use peeroxide.Store.{
  PersistentConfig, seq_reused, seq_too_low, max_records_per_lookup, max_relay_addresses, to_hex,
}
use peeroxide.Store.Lru
use peeroxide.Store.Lru.{LruCache}
use peeroxide.Store.Records
use peeroxide.Store.Records.{RecordCache}

pub record IncomingHyperRequest : Type 0 where
  pub command : ℕ
  pub target : Option (List ℕ)
  pub token : Option (List ℕ)
  pub value : Option (List ℕ)
  pub sender : Ipv4Peer
  pub id : Option (List ℕ)

pub data HandlerReply : Type 0 where
  value : Option (List ℕ) → HandlerReply
  value_no_token : Option (List ℕ) → HandlerReply
  error : ℕ → HandlerReply
  silent : HandlerReply

pub record RouterEntry : Type 0 where
  pub relay : Ipv4Peer
  pub content : List ℕ

pub record PersistentStats : Type 0 where
  pub records : ℕ
  pub record_topics : ℕ
  pub mutables : ℕ
  pub immutables : ℕ
  pub router_entries : ℕ

pub record Persistent : Type 0 where
  pub records : RecordCache
  pub bumps : LruCache
  pub refreshes : LruCache
  pub mutables : LruCache
  pub immutables : LruCache
  pub router : Dict RouterEntry

unfoldable pub new : PersistentConfig → Persistent
unfolding Records.new Lru.new
new config = record {
  records = Records.new config.max_records config.max_record_age config.max_per_key;
  bumps = Lru.new config.max_lru_size config.max_lru_age;
  refreshes = Lru.new config.max_lru_size config.max_lru_age;
  mutables = Lru.new config.max_lru_size config.max_lru_age;
  immutables = Lru.new config.max_lru_size config.max_lru_age;
  router = [];
}

unfoldable pub stats : Persistent → PersistentStats
unfolding Records.record_count Records.topic_count Lru.len
stats p = record {
  records = Records.record_count p.records;
  record_topics = Records.topic_count p.records;
  mutables = Lru.len p.mutables;
  immutables = Lru.len p.immutables;
  router_entries = length p.router;
}

unfoldable pub destroy : Persistent → Persistent
unfolding Records.destroy Lru.destroy
destroy p = record {
  records = Records.destroy p.records;
  bumps = Lru.destroy p.bumps;
  refreshes = Lru.destroy p.refreshes;
  mutables = Lru.destroy p.mutables;
  immutables = Lru.destroy p.immutables;
  router = [];
}

-- What a handler leaves, or a panic of the code it calls.
pub data Handled : Type 0 where
  handled : Persistent → HandlerReply → Handled
  crashed : Handled

-- `match x { Some(a) => a, None => return HandlerReply::Silent }`
abbrev pub or_silent : {A : Type 0} → Persistent → Option A → (A → Handled) → Handled
or_silent p none k = handled p silent
or_silent p (some a) k = k a

-- `match x { Ok(a) => a, Err(_) => return HandlerReply::Silent }`
abbrev pub ok_or_silent : {A : Type 0} → Persistent → Result A → (A → Handled) → Handled
ok_or_silent p (done a) k = k a
ok_or_silent p (failed e) k = handled p silent
ok_or_silent p panicked k = crashed

-- `x.ok()`
abbrev pub ok_of : {A : Type 0} → Result A → (Option A → Handled) → Handled
ok_of (done a) k = k (some a)
ok_of (failed e) k = k none
ok_of panicked k = crashed

abbrev pub record_of : Option RouterEntry → Option (List ℕ)
record_of none = none
record_of (some entry) = some entry.content

unfoldable pub on_find_peer : IncomingHyperRequest → Persistent → Handled
unfolding to_hex
on_find_peer req p =
    or_silent p req.target
      (λ target. handled p (value (record_of (lookup (to_hex target) p.router))))

-- `filter_map(|bytes| decode_hyper_peer_from_bytes(&bytes).ok())`
unfoldable pub decode_peers : List (List ℕ) → (List HyperPeer → Handled) → Handled
decode_peers [] k = k []
decode_peers (b ∷ bs) k =
    ok_of (decode_hyper_peer_from_bytes b)
      (λ o. elim o [ some peer ↦ decode_peers bs (λ ps. k (peer ∷ ps)) | none ↦ decode_peers bs k ])

-- The peers, and the self-announced one if there is room.
unfoldable pub append_router :
    List ℕ → List HyperPeer → Persistent → (List HyperPeer → Handled) → Handled
append_router key peers p k =
    if ltb (length peers) max_records_per_lookup
    then elim (lookup key p.router) [
      | some entry ↦
          ok_of (decode_hyper_peer_from_bytes entry.content)
            (λ o. elim o [ some peer ↦ k (peers ++ (peer ∷ [])) | none ↦ k peers ])
      | none ↦ k peers
    ]
    else k peers

-- `bump_bytes.and_then(|b| decode_uint(&mut State::from_buffer(b)).ok()).unwrap_or(0)`
unfoldable pub bump_of : Option (List ℕ) → (ℕ → Handled) → Handled
bump_of none k = k 0
bump_of (some b) k = ok_of (from_bytes decode_uint b) (λ o. elim o [ some n ↦ k n | none ↦ k 0 ])

unfoldable pub reply_lookup : List HyperPeer → ℕ → Persistent → Handled
reply_lookup peers bump p =
    if is_empty peers && (bump == 0)
    then handled p (value none)
    else ok_of (encode_lookup_raw_reply_to_bytes (record { peers = peers; bump = bump }))
        (λ o. handled p (value o))

unfoldable pub on_lookup : ℕ → IncomingHyperRequest → Persistent → Handled
unfolding to_hex Records.get decode_peers append_router bump_of reply_lookup Lru.get
on_lookup now req p = or_silent p req.target (λ target.
    let key = to_hex target in
    let (records, found) = Records.get now key max_records_per_lookup p.records in
    let q : Persistent = record p { records = records } in
    decode_peers found (λ live.
      append_router key live q
        (λ peers. bump_of (Lru.get now key q.bumps) (λ bump. reply_lookup peers bump q))))
