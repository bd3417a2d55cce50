-- ===== src/HyperMessages/Noise/Safety.antt =====
-- No bytes make the reader of the handshake payload panic.
use peeroxide.Common.{ℕ, ◌==◌, if◌then◌else◌, ◌≢◌, true, false, List}
use peeroxide.Encoding.State.{pure}
use peeroxide.Encoding.Laws.{Safe, Safe-bind, Safe-pure}
use peeroxide.Encoding.Uint.Laws.{Safe-uint}
use peeroxide.Encoding.Bytes.Laws.{Safe-fixed32}
use peeroxide.Encoding.Arrays.Laws.{Safe-array}
use peeroxide.Messages.{has_flag, panicked}
use peeroxide.HyperMessages.Parts.{
  Safe-some, Safe-filled, Safe-address, Safe-addresses, Safe-addresses6, from_bytes-ne-panicked,
}
use peeroxide.HyperMessages.Noise.{
  decode_relay_info, decode_relay_info_array, decode_holepunch_info, decode_udx_info,
  decode_secret_stream_info, decode_relay_through_info, unknown_version, decode_noise_rest,
  decode_versioned, decode_noise_payload, decode_noise_payload_from_bytes,
}
use peeroxide.HyperMessages.Noise.{
  np_flag_holepunch, np_flag_addresses4, np_flag_addresses6, np_flag_udx, np_flag_secret_stream,
  np_flag_relay_through, np_flag_relay_addresses,
}

Safe-relay_info : Safe decode_relay_info
unfolding decode_relay_info
Safe-relay_info = Safe-bind _ Safe-address (λ r. Safe-bind _ Safe-address (λ p. Safe-pure _))

Safe-holepunch_info : Safe decode_holepunch_info
unfolding decode_holepunch_info decode_relay_info_array
Safe-holepunch_info =
    Safe-bind _ Safe-uint (λ id. Safe-bind _ (Safe-array Safe-relay_info) (λ rs. Safe-pure _))

Safe-udx_info : Safe decode_udx_info
unfolding decode_udx_info
Safe-udx_info = Safe-bind _ Safe-uint (λ v.
    Safe-bind _ Safe-uint
      (λ f. Safe-bind _ Safe-uint (λ i. Safe-bind _ Safe-uint (λ q. Safe-pure _))))

Safe-secret_stream_info : Safe decode_secret_stream_info
unfolding decode_secret_stream_info
Safe-secret_stream_info = Safe-bind _ Safe-uint (λ v. Safe-pure _)

Safe-relay_through_info : Safe decode_relay_through_info
unfolding decode_relay_through_info
Safe-relay_through_info = Safe-bind _ Safe-uint (λ v.
    Safe-bind _ Safe-uint
      (λ f. Safe-bind _ Safe-fixed32 (λ k. Safe-bind _ Safe-fixed32 (λ t. Safe-pure _))))

module _ (show6 : List ℕ → List ℕ) where
  Safe-noise_rest : (version : ℕ) → Safe (decode_noise_rest show6 version)
  unfolding decode_noise_rest
  Safe-noise_rest version = Safe-bind _ Safe-uint (λ flags. Safe-bind _ Safe-uint (λ error.
      Safe-bind _ Safe-uint (λ firewall.
        Safe-bind _ (Safe-some Safe-holepunch_info (has_flag flags np_flag_holepunch)) (λ h.
          Safe-bind _ (Safe-filled Safe-addresses (has_flag flags np_flag_addresses4)) (λ a.
            Safe-bind _ (Safe-filled (Safe-addresses6 show6) (has_flag flags np_flag_addresses6))
              (λ b. Safe-bind _ (Safe-some Safe-udx_info (has_flag flags np_flag_udx)) (λ u.
                Safe-bind _
                  (Safe-some Safe-secret_stream_info (has_flag flags np_flag_secret_stream))
                  (λ s.
                    Safe-bind _
                      (Safe-some Safe-relay_through_info (has_flag flags np_flag_relay_through))
                      (λ t.
                        Safe-bind _
                          (Safe-some Safe-addresses (has_flag flags np_flag_relay_addresses))
                          (λ r. Safe-pure _))))))))))

  Safe-versioned : (version : ℕ) → Safe (decode_versioned show6 version)
  unfolding decode_versioned
  Safe-versioned version =
      elim (version == 1)
        as (λ b.
          Safe (if b then decode_noise_rest show6 version else pure (unknown_version version))) [
            | true ↦ Safe-noise_rest version
            | false ↦ Safe-pure _
          ]

  -- Whatever the bytes, and whatever the text form of IPv6 addresses,
  -- decode_noise_payload_from_bytes does not panic.
  pub noise_payload-ne-panicked :
      (bs : List ℕ) → decode_noise_payload_from_bytes show6 bs ≢ panicked
  unfolding decode_noise_payload_from_bytes decode_noise_payload
  noise_payload-ne-panicked bs = from_bytes-ne-panicked (Safe-bind _ Safe-uint Safe-versioned) bs
