-- ===== src/HandshakeState/Agreement.antt =====
-- The two sides of a handshake in step (src/handshakestate.rs): what they compute without a message.
use screech.Base.{ℕ, ◌≡◌, true, false, Bytes, take, arith}
use screech.Base.{replicate, inl, inr, Bool-cases}
use screech.Constants.{maxdhlen}
use screech.Outcome.{Outcome}
use screech.Toggle.{Toggle}
use screech.Types.{Cipher, Hash, Dh}
use screech.Types.Laws.{DhLaws}
use screech.Params.Table.{DhToken, ee, es, se, ss}
use screech.HandshakeState.{HandshakeState, dh, dh_len}
use screech.HandshakeState.Write.{mix_psk, mix_dh}

-- What one side holds of the other's key: it is set on both sides or on neither, and where it is set
-- the owner has a key pair and the other the public key.
pub record IsPublic (R : Type 0) {D : Type 0} ⦃ops : Dh R D⦄ ⦃laws : DhLaws R D⦄ (own : Toggle D)
    (known : Toggle Bytes) : Type 0 where
  pub both : own.is_on ≡ known.is_on
  pub pair : own.is_on ≡ true → ops.pubkey own.inner ≡ laws.public (ops.privkey own.inner)
  pub key : own.is_on ≡ true → take (ops.pub_len own.inner) known.inner ≡ ops.pubkey own.inner

module _ {R C H D : Type 0} ⦃cipher_ops : Cipher C⦄ ⦃hash_ops : Hash H⦄ ⦃ops : Dh R D⦄
    ⦃laws : DhLaws R D⦄ where
  pub record ArePeers (i r : HandshakeState R C H D) : Type 0 where
    pub first_role : i.initiator ≡ true
    pub second_role : r.initiator ≡ false
    pub symmetric : i.symmetricstate ≡ r.symmetricstate
    pub lengths : dh_len i ≡ dh_len r
    pub same_psks : i.psks ≡ r.psks
    pub i_s : IsPublic R i.s r.rs
    pub i_e : IsPublic R i.e r.re
    pub r_s : IsPublic R r.s i.rs
    pub r_e : IsPublic R r.e i.re

module _ {R C H D : Type 0} ⦃cipher_ops : Cipher C⦄ ⦃hash_ops : Hash H⦄ ⦃ops : Dh R D⦄
    ⦃laws : DhLaws R D⦄ where
  dh-agree : (i r : HandshakeState R C H D) → ArePeers i r → (t : DhToken) → dh i t ≡ dh r t
  unfolding dh
  dh-agree i r h ee = elim (Bool-cases i.e.is_on) [
    | inr off ↦ ground (arith, off, h.first_role, h.second_role, h.i_e.both, h.r_e.both)
    | inl on ↦ elim (Bool-cases r.e.is_on) [
      | inr off ↦ ground (arith, on, off, h.first_role, h.second_role, h.i_e.both, h.r_e.both)
      | inl on' ↦ ground (
        arith,
        on,
        on',
        h.first_role,
        h.second_role,
        h.i_e.both,
        h.r_e.both,
        laws.commutes i.e.inner r.e.inner i.re.inner r.re.inner (replicate maxdhlen 0)
            (h.i_e.pair on) (h.r_e.pair on') (h.r_e.key on') (h.i_e.key on),
      )
    ]
  ]
  dh-agree i r h ss = elim (Bool-cases i.s.is_on) [
    | inr off ↦ ground (arith, off, h.first_role, h.second_role, h.i_s.both, h.r_s.both)
    | inl on ↦ elim (Bool-cases r.s.is_on) [
      | inr off ↦ ground (arith, on, off, h.first_role, h.second_role, h.i_s.both, h.r_s.both)
      | inl on' ↦ ground (
        arith,
        on,
        on',
        h.first_role,
        h.second_role,
        h.i_s.both,
        h.r_s.both,
        laws.commutes i.s.inner r.s.inner i.rs.inner r.rs.inner (replicate maxdhlen 0)
            (h.i_s.pair on) (h.r_s.pair on') (h.r_s.key on') (h.i_s.key on),
      )
    ]
  ]
  dh-agree i r h se = elim (Bool-cases i.s.is_on) [
    | inr off ↦ ground (arith, off, h.first_role, h.second_role, h.i_s.both, h.r_e.both)
    | inl on ↦ elim (Bool-cases r.e.is_on) [
      | inr off ↦ ground (arith, on, off, h.first_role, h.second_role, h.i_s.both, h.r_e.both)
      | inl on' ↦ ground (
        arith,
        on,
        on',
        h.first_role,
        h.second_role,
        h.i_s.both,
        h.r_e.both,
        laws.commutes i.s.inner r.e.inner i.re.inner r.rs.inner (replicate maxdhlen 0)
            (h.i_s.pair on) (h.r_e.pair on') (h.r_e.key on') (h.i_s.key on),
      )
    ]
  ]
  dh-agree i r h es = elim (Bool-cases i.e.is_on) [
    | inr off ↦ ground (arith, off, h.first_role, h.second_role, h.i_e.both, h.r_s.both)
    | inl on ↦ elim (Bool-cases r.s.is_on) [
      | inr off ↦ ground (arith, on, off, h.first_role, h.second_role, h.i_e.both, h.r_s.both)
      | inl on' ↦ ground (
        arith,
        on,
        on',
        h.first_role,
        h.second_role,
        h.i_e.both,
        h.r_s.both,
        laws.commutes i.e.inner r.s.inner i.rs.inner r.re.inner (replicate maxdhlen 0)
            (h.i_e.pair on) (h.r_s.pair on') (h.r_s.key on') (h.i_e.key on),
      )
    ]
  ]

  -- Two calls with the same outcome that leave peers.
  abbrev pub Mixed :
      Outcome (Unit {0}) × HandshakeState R C H D
      → Outcome (Unit {0}) × HandshakeState R C H D
      → Type 0
  Mixed a b = (a.0 ≡ b.0) × ArePeers a.1 b.1

  mix_dh-Mixed :
      (i r : HandshakeState R C H D)
      → ArePeers i r
      → (t : DhToken) → Mixed (mix_dh t i) (mix_dh t r)
  unfolding mix_dh dh_len
  mix_dh-Mixed i r h t = ground (arith, h, dh-agree i r h t, h.lengths, h.symmetric)

  mix_psk-Mixed :
      (i r : HandshakeState R C H D) → ArePeers i r → (n : ℕ) → Mixed (mix_psk n i) (mix_psk n r)
  unfolding mix_psk dh_len
  mix_psk-Mixed i r h n = ground (arith, h, h.same_psks, h.symmetric)

  -- Under the law of the Diffie-Hellman function, two sides of opposite roles with equal symmetric
  -- states and PSKs, each knowing the public keys that the other has set: a `Dh` token, and a `Psk`
  -- token, come to the same outcome on both, errors and panics included, and the two sides are again
  -- in this relation, with equal symmetric states.
  pub mixing-ArePeers :
      (i r : HandshakeState R C H D) (t : DhToken) (n : ℕ)
      → ArePeers i r
      → Mixed (mix_dh t i) (mix_dh t r) × Mixed (mix_psk n i) (mix_psk n r)
  mixing-ArePeers i r t n h = (mix_dh-Mixed i r h t, mix_psk-Mixed i r h n)
