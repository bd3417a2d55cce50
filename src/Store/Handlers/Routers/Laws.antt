-- ===== src/Store/Handlers/Routers/Laws.antt =====
-- Who can take back what was announced.
use peeroxide.Common.{ℕ, ◌≡◌, refl, Bool, true, none, some, List}
use peeroxide.Common.Dict.{erase}
use peeroxide.Common.Dict.Size.{Unique, lookup-erase_self}
use peeroxide.Crypto.{ann_signable, ns_unannounce}
use peeroxide.Messages.{done}
use peeroxide.HyperMessages.{or_default}
use peeroxide.HyperMessages.Announce.{
  HyperPeer, AnnounceMessage, encode_hyper_peer_to_bytes, decode_announce_from_bytes,
}
use peeroxide.Store.{to_hex}
use peeroxide.Store.Records
use peeroxide.Store.Handlers.{
  IncomingHyperRequest, value, value_no_token, Persistent, handled, on_find_peer,
}
use peeroxide.Store.Handlers.Routers.{on_unannounce}

module _ (digest : List ℕ → List ℕ) (verify_detached : List ℕ → List ℕ → List ℕ → Bool) where
  -- Where no key has two entries in the router, and on a request with target and token whose
  -- announcement can be read and is signed by its own peer, on_unannounce makes the store forget
  -- the self-announced peer of the target, so that on_find_peer finds nothing; this needs no
  -- relation between the key of the peer and the target.
  pub unannounce_forgets :
      (node_id target token bytes signature encoded : List ℕ) (req find : IncomingHyperRequest)
      (p : Persistent) (msg : AnnounceMessage) (peer : HyperPeer)
      → Unique p.router
      → req.target ≡ some target
      → req.token ≡ some token
      → req.value ≡ some bytes
      → decode_announce_from_bytes bytes ≡ done msg
      → msg.peer ≡ some peer
      → msg.signature ≡ some signature
      → encode_hyper_peer_to_bytes peer ≡ done encoded
      → verify_detached signature
          (ann_signable digest target token node_id encoded
            (or_default msg.refresh)
            (ns_unannounce digest))
          peer.public_key
        ≡ true
      → find.target ≡ some target
      → (q : Persistent) × (on_unannounce digest verify_detached node_id req p
          ≡ handled q (value_no_token none))
        × (on_find_peer find q ≡ handled q (value none))
  unfolding on_unannounce on_find_peer
  unannounce_forgets node_id target token bytes signature encoded req find p msg peer u et ek ev ed
        ep es ee ok ef =
      let key : List ℕ = to_hex target in
      let q : Persistent = record p {
        records = Records.remove key peer.public_key p.records;
        router = erase key p.router;
      } in
      (q, rw (et, ek, ev, ed, ep, es, ee, ok) refl, rw (ef, lookup-erase_self key p.router u) refl)
