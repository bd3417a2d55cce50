-- ===== src/Store/Handlers/Routers.antt =====
-- persistent.rs: announcing and unannouncing a peer.
pub mod Laws
use peeroxide.Common.{
  ℕ, ◌==◌, not, if◌then◌else◌, Option, none, some, List, [], ◌∷◌, Bool, true, false, take,
}
use peeroxide.Common.Dict.{same_bytes, insert, erase}
use peeroxide.Crypto.{hash, ann_signable, ns_announce, ns_unannounce}
use peeroxide.Encoding.Uint.{preencode_uint, encode_uint}
use peeroxide.Messages.{Result, done, failed, panicked}
use peeroxide.HyperMessages.{to_bytes, or_default}
use peeroxide.HyperMessages.Announce.{
  HyperPeer, AnnounceMessage, encode_hyper_peer_to_bytes, decode_hyper_peer_from_bytes,
  decode_announce_from_bytes,
}
use peeroxide.Store.{max_relay_addresses, to_hex}
use peeroxide.Store.Lru
use peeroxide.Store.Records
use peeroxide.Store.Handlers.{
  IncomingHyperRequest, HandlerReply, value_no_token, Persistent, Handled, handled, crashed,
  or_silent, ok_or_silent, ok_of,
}

-- A refresh token stands for the peer that was stored under it.
unfoldable pub restore_peer :
    ℕ → AnnounceMessage → Persistent → (Option HyperPeer → Handled) → Handled
unfolding to_hex Lru.get
restore_peer now msg p k = elim msg.peer [
  | some peer ↦ k (some peer)
  | none ↦ elim msg.refresh [
    | none ↦ k none
    | some refresh ↦ elim (Lru.get now (to_hex refresh) p.refreshes) [
      | none ↦ k none
      | some stored ↦ ok_of (decode_hyper_peer_from_bytes stored) k
    ]
  ]
]

abbrev pub truncated : HyperPeer → HyperPeer
truncated peer = record peer { relay_addresses = take max_relay_addresses peer.relay_addresses }

unfoldable pub set_bump : ℕ → List ℕ → ℕ → Persistent → (Persistent → Handled) → Handled
unfolding Lru.set
set_bump now key bump p k =
    if bump == 0
    then k p
    else ok_of (to_bytes preencode_uint encode_uint bump)
        (λ o. k (record p { bumps = Lru.set now key (or_default o) p.bumps }))

-- The peer is stored as the target's own, or among its records.
unfoldable pub store_peer :
    ℕ
    → Bool
    → List ℕ
    → IncomingHyperRequest
    → HyperPeer
    → ℕ
    → Persistent
    → (Persistent → Handled)
    → Handled
unfolding Records.remove Records.add set_bump
store_peer now announce_self key req peer bump p k =
    ok_or_silent p (encode_hyper_peer_to_bytes peer) (λ encoded.
      if announce_self
      then k (record p {
        router = insert key (record { relay = req.sender; content = encoded }) p.router;
        records = Records.remove key peer.public_key p.records;
      })
      else set_bump now key bump
          (record p { records = Records.add now key peer.public_key encoded p.records }) k)

unfoldable pub store_refresh : ℕ → Option (List ℕ) → HyperPeer → Persistent → Handled
unfolding Lru.set to_hex
store_refresh now none peer p = handled p (value_no_token none)
store_refresh now (some refresh) peer p = ok_of (encode_hyper_peer_to_bytes peer) (λ o.
    handled (record p { refreshes = Lru.set now (to_hex refresh) (or_default o) p.refreshes })
      (value_no_token none))

module _ (digest : List ℕ → List ℕ) (verify_detached : List ℕ → List ℕ → List ℕ → Bool) where
  -- What the peer must have signed.
  abbrev pub signed :
      List ℕ → List ℕ → List ℕ → List ℕ → AnnounceMessage → HyperPeer → List ℕ → List ℕ → Bool
  signed ns target token node_id msg peer signature peer_encoded =
      verify_detached signature
        (ann_signable digest target token node_id peer_encoded (or_default msg.refresh) ns)
        peer.public_key

  unfoldable pub on_announce : ℕ → List ℕ → IncomingHyperRequest → Persistent → Handled
  unfolding restore_peer ann_signable ns_announce store_peer store_refresh to_hex hash
  on_announce now node_id req p = or_silent p req.target (λ target. or_silent p req.token (λ token.
      or_silent p req.value (λ bytes. ok_or_silent p (decode_announce_from_bytes bytes) (λ msg.
        restore_peer now msg p (λ found. or_silent p found (λ peer.
          or_silent p msg.signature (λ signature.
            ok_or_silent p (encode_hyper_peer_to_bytes peer) (λ peer_encoded.
              if not
                (signed (ns_announce digest) target token node_id msg peer signature peer_encoded)
              then handled p HandlerReply.silent
              else store_peer now (same_bytes (hash digest peer.public_key) target) (to_hex target)
                  req (truncated peer) msg.bump p
                  (λ q. store_refresh now msg.refresh (truncated peer) q)))))))))

  unfoldable pub on_unannounce : List ℕ → IncomingHyperRequest → Persistent → Handled
  unfolding ann_signable ns_unannounce Records.remove to_hex
  on_unannounce node_id req p = or_silent p req.target (λ target. or_silent p req.token (λ token.
      or_silent p req.value (λ bytes. ok_or_silent p (decode_announce_from_bytes bytes) (λ msg.
        or_silent p msg.peer (λ peer. or_silent p msg.signature (λ signature.
          ok_or_silent p (encode_hyper_peer_to_bytes peer) (λ peer_encoded.
            if not
              (signed (ns_unannounce digest) target token node_id msg peer signature peer_encoded)
            then handled p HandlerReply.silent
            else handled
                (record p {
                  records = Records.remove (to_hex target) peer.public_key p.records;
                  router = erase (to_hex target) p.router;
                })
                (value_no_token none))))))))
