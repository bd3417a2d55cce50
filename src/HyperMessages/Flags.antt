-- ===== src/HyperMessages/Flags.antt =====
-- The flag numbers of the messages, each tested at all choices of its flags.
use peeroxide.Common.{◌≡◌, ◌≤◌, refl, Bool, true, leb, leb→le}
use peeroxide.Messages.{has_flag}
use peeroxide.Messages.Flags.{same, same_lem, both, both_lem}
use peeroxide.HyperMessages.Announce.{
  announce_flags, flag_peer, flag_refresh, flag_signature, flag_bump,
}
use peeroxide.HyperMessages.Routing.{handshake_flags}
use peeroxide.HyperMessages.Noise.{
  noise_flags, np_flag_holepunch, np_flag_addresses4, np_flag_addresses6, np_flag_udx,
  np_flag_secret_stream, np_flag_relay_through, np_flag_relay_addresses,
}
use peeroxide.HyperMessages.Punch.{
  punch_flags, hp_flag_connected, hp_flag_punching, hp_flag_addresses, hp_flag_remote_address,
  hp_flag_token, hp_flag_remote_token,
}

-- A test at every choice of four and of seven flags.
four : (Bool → Bool → Bool → Bool → Bool) → Bool
unfolding both
four p = both (λ a. both (λ b. both (λ c. both (λ d. p a b c d))))

four_lem :
    (p : Bool → Bool → Bool → Bool → Bool) → four p ≡ true → (a b c d : Bool) → p a b c d ≡ true
unfolding four
four_lem p h a b c d =
    both_lem (p a b c)
      (both_lem (λ x. both (p a b x))
        (both_lem (λ x. both (λ y. both (p a x y)))
          (both_lem (λ x. both (λ y. both (λ z. both (p x y z)))) h a) b)
        c)
      d

seven : (Bool → Bool → Bool → Bool → Bool → Bool → Bool → Bool) → Bool
unfolding both four
seven p = both (λ a. both (λ b. both (λ c. four (p a b c))))

seven_lem :
    (p : Bool → Bool → Bool → Bool → Bool → Bool → Bool → Bool)
    → seven p ≡ true
    → (a b c d e f g : Bool) → p a b c d e f g ≡ true
unfolding seven
seven_lem p h a b c d e f g =
    four_lem (p a b c)
      (both_lem (λ x. four (p a b x))
        (both_lem (λ x. both (λ y. four (p a x y)))
          (both_lem (λ x. both (λ y. both (λ z. four (p x y z)))) h a) b)
        c)
      d e f g

module _ (a b c d : Bool) where
  pub announce_peer : has_flag (announce_flags a b c d) flag_peer ≡ a
  unfolding four both same announce_flags
  announce_peer =
      same_lem a _
        (four_lem (λ a b c d. same a (has_flag (announce_flags a b c d) flag_peer)) refl a b c d)

  pub announce_refresh : has_flag (announce_flags a b c d) flag_refresh ≡ b
  unfolding four both same announce_flags
  announce_refresh =
      same_lem b _
        (four_lem (λ a b c d. same b (has_flag (announce_flags a b c d) flag_refresh)) refl a b c d)

  pub announce_signature : has_flag (announce_flags a b c d) flag_signature ≡ c
  unfolding four both same announce_flags
  announce_signature =
      same_lem c _ (
        four_lem (λ a b c d. same c (has_flag (announce_flags a b c d) flag_signature)) refl a b c
          d)

  pub announce_bump : has_flag (announce_flags a b c d) flag_bump ≡ d
  unfolding four both same announce_flags
  announce_bump =
      same_lem d _
        (four_lem (λ a b c d. same d (has_flag (announce_flags a b c d) flag_bump)) refl a b c d)

  pub announce_small : announce_flags a b c d ≤ 0xfc
  unfolding four both announce_flags
  announce_small = leb→le _ _ (four_lem (λ a b c d. leb (announce_flags a b c d) 0xfc) refl a b c d)

module _ (a b c d e f g : Bool) where
  pub noise_holepunch : has_flag (noise_flags a b c d e f g) np_flag_holepunch ≡ a
  unfolding seven four both same noise_flags
  noise_holepunch = same_lem a _ (
      seven_lem (λ a b c d e f g. same a (has_flag (noise_flags a b c d e f g) np_flag_holepunch))
        refl a b c d e f g)

  pub noise_addresses4 : has_flag (noise_flags a b c d e f g) np_flag_addresses4 ≡ b
  unfolding seven four both same noise_flags
  noise_addresses4 = same_lem b _ (
      seven_lem (λ a b c d e f g. same b (has_flag (noise_flags a b c d e f g) np_flag_addresses4))
        refl a b c d e f g)

  pub noise_addresses6 : has_flag (noise_flags a b c d e f g) np_flag_addresses6 ≡ c
  unfolding seven four both same noise_flags
  noise_addresses6 = same_lem c _ (
      seven_lem (λ a b c d e f g. same c (has_flag (noise_flags a b c d e f g) np_flag_addresses6))
        refl a b c d e f g)

  pub noise_udx : has_flag (noise_flags a b c d e f g) np_flag_udx ≡ d
  unfolding seven four both same noise_flags
  noise_udx = same_lem d _ (
      seven_lem (λ a b c d e f g. same d (has_flag (noise_flags a b c d e f g) np_flag_udx)) refl a
        b c d e f g)

  pub noise_secret_stream : has_flag (noise_flags a b c d e f g) np_flag_secret_stream ≡ e
  unfolding seven four both same noise_flags
  noise_secret_stream = same_lem e _ (
      seven_lem
        (λ a b c d e f g. same e (has_flag (noise_flags a b c d e f g) np_flag_secret_stream)) refl
        a b c d e f g)

  pub noise_relay_through : has_flag (noise_flags a b c d e f g) np_flag_relay_through ≡ f
  unfolding seven four both same noise_flags
  noise_relay_through = same_lem f _ (
      seven_lem
        (λ a b c d e f g. same f (has_flag (noise_flags a b c d e f g) np_flag_relay_through)) refl
        a b c d e f g)

  pub noise_relay_addresses : has_flag (noise_flags a b c d e f g) np_flag_relay_addresses ≡ g
  unfolding seven four both same noise_flags
  noise_relay_addresses = same_lem g _ (
      seven_lem
        (λ a b c d e f g. same g (has_flag (noise_flags a b c d e f g) np_flag_relay_addresses))
        refl a b c d e f g)

  pub noise_small : noise_flags a b c d e f g ≤ 0xfc
  unfolding seven four both noise_flags
  noise_small =
      leb→le _ _
        (seven_lem (λ a b c d e f g. leb (noise_flags a b c d e f g) 0xfc) refl a b c d e f g)

module _ (a b c d e f : Bool) where
  pub punch_connected : has_flag (punch_flags a b c d e f) hp_flag_connected ≡ a
  unfolding seven four both same punch_flags
  punch_connected = same_lem a _ (
      seven_lem (λ a b c d e f g. same a (has_flag (punch_flags a b c d e f) hp_flag_connected))
        refl a b c d e f true)

  pub punch_punching : has_flag (punch_flags a b c d e f) hp_flag_punching ≡ b
  unfolding seven four both same punch_flags
  punch_punching = same_lem b _ (
      seven_lem (λ a b c d e f g. same b (has_flag (punch_flags a b c d e f) hp_flag_punching)) refl
        a b c d e f true)

  pub punch_addresses : has_flag (punch_flags a b c d e f) hp_flag_addresses ≡ c
  unfolding seven four both same punch_flags
  punch_addresses = same_lem c _ (
      seven_lem (λ a b c d e f g. same c (has_flag (punch_flags a b c d e f) hp_flag_addresses))
        refl a b c d e f true)

  pub punch_remote_address : has_flag (punch_flags a b c d e f) hp_flag_remote_address ≡ d
  unfolding seven four both same punch_flags
  punch_remote_address = same_lem d _ (
      seven_lem
        (λ a b c d e f g. same d (has_flag (punch_flags a b c d e f) hp_flag_remote_address)) refl a
        b c d e f true)

  pub punch_token : has_flag (punch_flags a b c d e f) hp_flag_token ≡ e
  unfolding seven four both same punch_flags
  punch_token = same_lem e _ (
      seven_lem (λ a b c d e f g. same e (has_flag (punch_flags a b c d e f) hp_flag_token)) refl a
        b c d e f true)

  pub punch_remote_token : has_flag (punch_flags a b c d e f) hp_flag_remote_token ≡ f
  unfolding seven four both same punch_flags
  punch_remote_token = same_lem f _ (
      seven_lem (λ a b c d e f g. same f (has_flag (punch_flags a b c d e f) hp_flag_remote_token))
        refl a b c d e f true)

  pub punch_small : punch_flags a b c d e f ≤ 0xfc
  unfolding seven four both punch_flags
  punch_small =
      leb→le _ _
        (seven_lem (λ a b c d e f g. leb (punch_flags a b c d e f) 0xfc) refl a b c d e f true)

module _ (a b : Bool) where
  pub handshake_peer : has_flag (handshake_flags a b) 1 ≡ a
  unfolding four both same handshake_flags
  handshake_peer =
      same_lem a _
        (four_lem (λ a b c d. same a (has_flag (handshake_flags a b) 1)) refl a b true true)

  pub handshake_relay : has_flag (handshake_flags a b) 2 ≡ b
  unfolding four both same handshake_flags
  handshake_relay =
      same_lem b _
        (four_lem (λ a b c d. same b (has_flag (handshake_flags a b) 2)) refl a b true true)

  pub handshake_small : handshake_flags a b ≤ 0xfc
  unfolding four both handshake_flags
  handshake_small =
      leb→le _ _ (four_lem (λ a b c d. leb (handshake_flags a b) 0xfc) refl a b true true)
