-- ===== src/Crypto.antt =====
-- crypto.rs: what is signed. The BLAKE2b digest is a parameter.
use peeroxide.Common.{ℕ, List, [], ◌∷◌, ◌++◌}
use peeroxide.Messages.{Result, done, failed, panicked}
use peeroxide.HyperMessages.Mutable.{encode_mutable_signable_to_bytes}

-- `b"hyperswarm/dht"`
abbrev pub hyperswarm_dht : List ℕ
hyperswarm_dht =
    b'h' ∷ b'y' ∷ b'p' ∷ b'e' ∷ b'r' ∷ b's' ∷ b'w' ∷ b'a' ∷ b'r' ∷ b'm' ∷ b'/' ∷ b'd' ∷ b'h' ∷ b't'
    ∷ []

abbrev pub concat : List (List ℕ) → List ℕ
concat [] = []
concat (p ∷ ps) = p ++ concat ps

abbrev pub map_done : {A B : Type 0} → (A → B) → Result A → Result B
map_done f (done a) = done (f a)
map_done f (failed e) = failed e
map_done f panicked = panicked

module _ (digest : List ℕ → List ℕ) where
  unfoldable pub hash : List ℕ → List ℕ
  hash bytes = digest bytes

  unfoldable pub hash_batch : List (List ℕ) → List ℕ
  hash_batch parts = digest (concat parts)

  unfoldable pub namespace : List ℕ → List ℕ → List (List ℕ)
  namespace name [] = []
  namespace name (id ∷ ids) = digest (digest name ++ (id ∷ [])) ∷ namespace name ids

  abbrev pub first_of : List (List ℕ) → List ℕ
  first_of [] = []
  first_of (n ∷ ns) = n

  unfoldable pub ns_announce : List ℕ
  unfolding namespace
  ns_announce = first_of (namespace hyperswarm_dht (4 ∷ []))

  unfoldable pub ns_unannounce : List ℕ
  unfolding namespace
  ns_unannounce = first_of (namespace hyperswarm_dht (5 ∷ []))

  unfoldable pub ns_mutable_put : List ℕ
  unfolding namespace
  ns_mutable_put = first_of (namespace hyperswarm_dht (6 ∷ []))

  unfoldable pub ann_signable : List ℕ → List ℕ → List ℕ → List ℕ → List ℕ → List ℕ → List ℕ
  unfolding hash_batch
  ann_signable target token id peer_encoded refresh ns =
      ns ++ hash_batch (target ∷ id ∷ token ∷ peer_encoded ∷ refresh ∷ [])

  unfoldable pub mutable_signable : List ℕ → ℕ → List ℕ → Result (List ℕ)
  unfolding hash
  mutable_signable ns seq value =
      map_done (λ buffer. ns ++ hash buffer)
        (encode_mutable_signable_to_bytes (record { seq = seq; value = value }))
