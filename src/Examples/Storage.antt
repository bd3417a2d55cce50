-- ===== src/Examples/Storage.antt =====
-- persistent.rs on concrete requests, with a stand-in digest and a check that accepts all.
use peeroxide.Common.{
  ℕ, ◌≡◌, refl, true, Bool, some, none, List, [], ◌∷◌, ◌++◌, replicate, arith, ap,
}
use peeroxide.Crypto.{hash, map_done, mutable_signable, ns_mutable_put}
use peeroxide.Encoding.Uint.{decode_uint}
use peeroxide.Messages.{Ipv4Peer, done}
use peeroxide.HyperMessages.{from_bytes}
use peeroxide.HyperMessages.Announce.{HyperPeer, AnnounceMessage}
use peeroxide.HyperMessages.Announce.Laws.{
  IsHyperPeer, IsAnnounce, announce_survives, hyper_peer_survives,
}
use peeroxide.HyperMessages.Mutable.{
  MutablePutRequest, MutableGetResponse, decode_mutable_get_response_from_bytes,
}
use peeroxide.HyperMessages.Mutable.Laws.{
  IsPut, IsGetResponse, mutable_put_request_survives, mutable_get_response_survives,
  mutable_signable_survives,
}
use peeroxide.Store.{to_hex}
use peeroxide.Store.Lru
use peeroxide.Store.Lru.{LruCache}
use peeroxide.Store.Records
use peeroxide.Store.Records.Limits.{Limited}
use peeroxide.Store.Records.Limits.Calls.{run-Limited}
use peeroxide.Store.Records.Changes.{Change, adds, removes, reads, run}
use peeroxide.Store.Handlers.{
  IncomingHyperRequest, value, value_no_token, Persistent, handled, on_find_peer,
}
use peeroxide.Store.Handlers.Routers.{on_unannounce}
use peeroxide.Store.Handlers.Routers.Laws.{unannounce_forgets}
use peeroxide.Store.Handlers.Values.{on_mutable_put, on_mutable_get}
use peeroxide.Store.Handlers.Values.Laws.{Leaves, late_put-Leaves, mutable_stored}

abbrev zeros : List ℕ
zeros = replicate 32 0

abbrev digest : List ℕ → List ℕ
digest bytes = zeros

abbrev accepts : List ℕ → List ℕ → List ℕ → Bool
accepts signature signable public_key = true

abbrev cache : LruCache
cache = record { entries = []; max_size = 2; max_age = 1200 }

abbrev store : Persistent
store = record {
  records = record { entries = []; max_size = 8; max_age = 1200; max_per_key = 4; total = 0 };
  bumps = cache;
  refreshes = cache;
  mutables = cache;
  immutables = cache;
  router = [];
}

abbrev someone : Ipv4Peer
someone = record { host = []; port = 0 }

abbrev request : List ℕ → List ℕ → IncomingHyperRequest
request target bytes = record {
  command = 0;
  target = some target;
  token = some zeros;
  value = some bytes;
  sender = someone;
  id = none;
}

-- The key's digest is zeros, and the target another.
abbrev peer : HyperPeer
peer = record { public_key = replicate 32 3; relay_addresses = [] }

abbrev message : AnnounceMessage
message = record { peer = some peer; refresh = none; signature = some (replicate 64 9); bump = 0 }

peer-IsHyperPeer : IsHyperPeer peer
peer-IsHyperPeer = record { key = refl; relays = (omega arith, tt) }

message-IsAnnounce : IsAnnounce message
message-IsAnnounce = record {
  who = peer-IsHyperPeer;
  refresh_key = tt;
  signed = refl;
  bump_fits = omega arith;
}

abbrev ones : List ℕ
ones = replicate 32 1

abbrev unannounce : IncomingHyperRequest
unannounce = request ones (announce_survives message message-IsAnnounce).0

abbrev announced : Persistent
announced = record store {
  router = (to_hex ones, record { relay = someone; content = 5 ∷ [] }) ∷ [];
}

unannounce_forgets_example :
    (q : Persistent) × (on_unannounce digest accepts zeros unannounce announced
      ≡ handled q (value_no_token none))
    × (on_find_peer (request ones []) q ≡ handled q (value none))
unannounce_forgets_example =
    unannounce_forgets digest accepts zeros ones zeros
      (announce_survives message message-IsAnnounce).0 (replicate 64 9)
      (hyper_peer_survives peer peer-IsHyperPeer).0 unannounce (request ones []) announced message
      peer (refl, tt) refl refl refl (announce_survives message message-IsAnnounce).2 refl refl
      (hyper_peer_survives peer peer-IsHyperPeer).1 refl refl

abbrev put : MutablePutRequest
put = record { public_key = replicate 32 3; seq = 4; value = 8 ∷ []; signature = replicate 64 9 }

put-IsPut : IsPut put
put-IsPut = record { key = refl; seq_fits = omega arith; value_fits = omega arith; signed = refl }

abbrev later : MutableGetResponse
later = record { seq = 6; value = []; signature = replicate 64 2 }

later-IsGetResponse : IsGetResponse later
later-IsGetResponse = record { seq_fits = omega arith; value_fits = omega arith; signed = refl }

abbrev later_bytes : List ℕ
later_bytes = (mutable_get_response_survives later later-IsGetResponse).0

abbrev with_later : Persistent
with_later = record store {
  mutables = record cache {
    entries = (to_hex zeros, record { value = later_bytes; inserted_at = 3 }) ∷ [];
  };
}

late_put-Leaves_example : Leaves with_later (
    on_mutable_put digest accepts 5
      (request zeros (mutable_put_request_survives put put-IsPut).0)
      with_later)
unfolding Lru.get Lru.live to_hex
late_put-Leaves_example =
    late_put-Leaves digest accepts 5 (request zeros (mutable_put_request_survives put put-IsPut).0)
      with_later zeros (mutable_put_request_survives put put-IsPut).0 later_bytes put later refl
      refl (mutable_put_request_survives put put-IsPut).2 refl
      (mutable_get_response_survives later later-IsGetResponse).2 (omega arith)

-- What is signed for `put`.
abbrev signable : List ℕ
signable = ns_mutable_put digest ++ zeros

signable_lem : mutable_signable digest (ns_mutable_put digest) 4 (8 ∷ []) ≡ done signable
unfolding mutable_signable hash
signable_lem =
    ap (map_done (λ buffer. ns_mutable_put digest ++ hash digest buffer))
      (mutable_signable_survives (record { seq = 4; value = 8 ∷ [] }) (omega arith) (omega arith)).1

put_response-IsGetResponse :
    IsGetResponse (record { seq = 4; value = 8 ∷ []; signature = replicate 64 9 })
put_response-IsGetResponse = record {
  seq_fits = omega arith;
  value_fits = omega arith;
  signed = refl;
}

asked_lem : from_bytes decode_uint (2 ∷ []) ≡ done 2
unfolding decode_uint peeroxide.Encoding.Words.decode_uint8 peeroxide.Encoding.State.check_remaining
    peeroxide.Encoding.State.from_buffer peeroxide.Encoding.State.load
    peeroxide.Encoding.State.advance
asked_lem = refl

mutable_stored_example :
    (q : Persistent) × (stored : List ℕ) × (on_mutable_put digest accepts 5
        (request zeros (mutable_put_request_survives put put-IsPut).0)
        store
      ≡ handled q (value none))
    × (on_mutable_get 5 (request zeros (2 ∷ [])) q ≡ handled q (value (some stored)))
    × (decode_mutable_get_response_from_bytes stored
        ≡ done (record { seq = 4; value = 8 ∷ []; signature = replicate 64 9 }))
unfolding hash Lru.get Lru.live
mutable_stored_example =
    mutable_stored digest accepts 5 (request zeros (mutable_put_request_survives put put-IsPut).0)
      (request zeros (2 ∷ [])) store zeros zeros (mutable_put_request_survives put put-IsPut).0
      (2 ∷ []) signable put 2 refl refl refl (mutable_put_request_survives put put-IsPut).2
      put_response-IsGetResponse refl signable_lem refl refl (omega arith) refl refl asked_lem
      (omega arith)

abbrev changes : List Change
changes =
    adds 1 (7 ∷ []) (1 ∷ []) (10 ∷ [])
    ∷ adds 2 (7 ∷ []) (2 ∷ []) (11 ∷ [])
    ∷ adds 3 (8 ∷ []) (1 ∷ []) (12 ∷ [])
    ∷ adds 4 (7 ∷ []) (1 ∷ []) (13 ∷ [])
    ∷ removes (7 ∷ []) (2 ∷ [])
    ∷ reads 2000 (8 ∷ []) 20
    ∷ []

run-Limited_example : Limited 4 2 (run changes (Records.new 2 1200 4))
run-Limited_example = run-Limited changes 2 1200 4 (omega arith) (omega arith)
