-- ===== src/HandshakeState/InStep.antt =====
-- The writer and the reader of a handshake message (src/handshakestate.rs) in step: equal symmetric
-- states, and a key that one holds of the other is the other's.
pub mod Ephemeral
pub mod Static
pub mod Sent
pub mod Mixed
pub mod Sealed
pub mod Tokens
pub mod Payload
pub mod Delivered
pub mod Calls
pub mod Message
pub mod Conversation
use screech.Base.{
  ℕ, ◌≤◌, ◌≡◌, Bool, true, false, not, ◌&&◌, List, [], ◌∷◌, Bytes, length, take, arith, replicate,
  inl, inr, Bool-cases,
}
use screech.Constants.{maxdhlen}
use screech.Outcome.{Outcome, ok}
use screech.Toggle.{Toggle}
use screech.Types.{Cipher, Hash, Dh}
use screech.Types.Laws.{DhLaws}
use screech.Params.Table.{DhToken, ee, es, se, ss}
use screech.Params.Readable.{Known, is_known}
use screech.SymmetricState.Returned.{IsSynced}
use screech.HandshakeState.{HandshakeState, dh, dh_len}

-- A key that is known is the other side's, which has the key pair.
pub record Knows (R : Type 0) {D : Type 0} ⦃ops : Dh R D⦄ ⦃laws : DhLaws R D⦄ (known : Toggle Bytes)
    (own : Toggle D) : Type 0 where
  pub owned : known.is_on ≡ true → own.is_on ≡ true
  pub pair : known.is_on ≡ true → ops.pubkey own.inner ≡ laws.public (ops.privkey own.inner)
  pub key : known.is_on ≡ true → take (ops.pub_len own.inner) known.inner ≡ ops.pubkey own.inner

module _ {R C H D : Type 0} ⦃cipher_ops : Cipher C⦄ ⦃hash_ops : Hash H⦄ ⦃ops : Dh R D⦄
    ⦃laws : DhLaws R D⦄ where
  -- One side by itself: its keys and its buffers have the one length of the function.
  pub record IsSound (hs : HandshakeState R C H D) : Type 0 where
    pub e_len : ops.pub_len hs.e.inner ≡ dh_len hs
    pub rs_room : dh_len hs ≤ length hs.rs.inner
    pub re_room : dh_len hs ≤ length hs.re.inner
    pub s_pair : hs.s.is_on ≡ true → ops.pubkey hs.s.inner ≡ laws.public (ops.privkey hs.s.inner)
    pub e_pair : hs.e.is_on ≡ true → ops.pubkey hs.e.inner ≡ laws.public (ops.privkey hs.e.inner)
    pub fixed_pair :
        hs.fixed_ephemeral ≡ true → ops.pubkey hs.e.inner ≡ laws.public (ops.privkey hs.e.inner)

  pub record InStep (w r : HandshakeState R C H D) : Type 0 where
    pub roles : r.initiator ≡ not w.initiator
    pub symmetric : r.symmetricstate ≡ w.symmetricstate
    pub synced : IsSynced w.symmetricstate
    pub children : r.cipherstates ≡ w.cipherstates
    pub lengths : dh_len r ≡ dh_len w
    pub same_params : r.params ≡ w.params
    pub same_psks : r.psks ≡ w.psks
    pub same_patterns : r.message_patterns ≡ w.message_patterns
    pub same_position : r.pattern_position ≡ w.pattern_position
    pub w_sound : IsSound w
    pub r_sound : IsSound r
    pub r_s : Knows R r.rs w.s
    pub r_e : Knows R r.re w.e
    pub w_s : Knows R w.rs r.s
    pub w_e : Knows R w.re r.e

  abbrev pub known_to : HandshakeState R C H D → Known
  known_to hs = record { static = hs.rs.is_on; ephemeral = hs.re.is_on }

module _ {R C H D : Type 0} ⦃cipher_ops : Cipher C⦄ ⦃hash_ops : Hash H⦄ ⦃ops : Dh R D⦄
    ⦃laws : DhLaws R D⦄ where
  -- Where the writer's `dh` returns and the reader has the key of the other side, the reader's
  -- returns the same.
  pub dh-InStep :
      (w r : HandshakeState R C H D) (t : DhToken) {out : Bytes}
      → InStep w r
      → is_known t r.initiator (known_to r) ≡ true
      → dh w t ≡ ok out
      → dh r t ≡ ok out
  unfolding dh
  dh-InStep w r ee {out} h k d = ground (
    arith,
    k,
    d,
    h.w_e.owned,
    h.r_e.owned,
    h.w_e.pair,
    h.r_e.pair,
    h.w_e.key,
    h.r_e.key,
    laws.commutes w.e.inner r.e.inner w.re.inner r.re.inner (replicate maxdhlen 0),
  )
  dh-InStep w r ss {out} h k d = ground (
    arith,
    k,
    d,
    h.w_s.owned,
    h.r_s.owned,
    h.w_s.pair,
    h.r_s.pair,
    h.w_s.key,
    h.r_s.key,
    laws.commutes w.s.inner r.s.inner w.rs.inner r.rs.inner (replicate maxdhlen 0),
  )
  dh-InStep w r se {out} h k d = elim (Bool-cases w.initiator) [
    | inl i ↦ ground (
      arith,
      i,
      h.roles,
      k,
      d,
      h.w_e.owned,
      h.r_s.owned,
      h.w_e.pair,
      h.r_s.pair,
      h.w_e.key,
      h.r_s.key,
      laws.commutes w.s.inner r.e.inner w.re.inner r.rs.inner (replicate maxdhlen 0),
    )
    | inr i ↦ ground (
      arith,
      i,
      h.roles,
      k,
      d,
      h.w_s.owned,
      h.r_e.owned,
      h.w_s.pair,
      h.r_e.pair,
      h.w_s.key,
      h.r_e.key,
      laws.commutes w.e.inner r.s.inner w.rs.inner r.re.inner (replicate maxdhlen 0),
    )
  ]
  dh-InStep w r es {out} h k d = elim (Bool-cases w.initiator) [
    | inl i ↦ ground (
      arith,
      i,
      h.roles,
      k,
      d,
      h.w_s.owned,
      h.r_e.owned,
      h.w_s.pair,
      h.r_e.pair,
      h.w_s.key,
      h.r_e.key,
      laws.commutes w.e.inner r.s.inner w.rs.inner r.re.inner (replicate maxdhlen 0),
    )
    | inr i ↦ ground (
      arith,
      i,
      h.roles,
      k,
      d,
      h.w_e.owned,
      h.r_s.owned,
      h.w_e.pair,
      h.r_s.pair,
      h.w_e.key,
      h.r_s.key,
      laws.commutes w.s.inner r.e.inner w.re.inner r.rs.inner (replicate maxdhlen 0),
    )
  ]
