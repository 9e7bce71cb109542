-- ===== src/HandshakeState/Total.antt =====
-- When the tokens of a message in src/handshakestate.rs go through: the writer has its keys, the keys
-- of the other side and its PSKs.
pub mod Tokens
pub mod Loop
pub mod Message
pub mod Reader
pub mod Exchange
pub mod Completes
use screech.Base.{
  ℕ, ◌+◌, ◌≤◌, ◌<◌, ◌≡◌, refl, sym, ap, ◌∙◌, Bool, true, false, not, ◌&&◌, List, [], ◌∷◌, Option,
  none, some, Bytes, length, take, drop, replicate, length-replicate, get_elem?, leb, le→leb,
  Bool-cases, inl, inr, Option-cases, arith,
}
use screech.Constants.{maxdhlen, taglen}
use screech.Exec.{Exec}
use screech.Outcome.{Outcome, Result, ok, err, panic}
use screech.Toggle.{Toggle}
use screech.Types.{Cipher, Hash, Dh}
use screech.Types.Laws.{CipherLaws, HashLaws, DhLaws}
use screech.Types.Total.{HashSizes, DhTotal}
use screech.Params.Table.{Token, DhToken, ee, es, se, ss}
use screech.Params.Readable.{Known, is_known}
use screech.SymmetricState.{SymmetricState}
use screech.SymmetricState.Total.{IsRunning, mix_key_returns, mix_key_and_hash_returns}
use screech.HandshakeState.{HandshakeState, dh, dh_len}
use screech.HandshakeState.Write.{mix_dh, mix_psk}

-- The bytes that a token takes at most, over the length of a public key.
abbrev pub token_len : ℕ → Token → ℕ
token_len n Token.e = n
token_len n Token.s = n + taglen
token_len n (Token.psk _) = 0
token_len n (Token.dh _) = 0

abbrev pub tokens_len : ℕ → List Token → ℕ
tokens_len n [] = 0
tokens_len n (t ∷ ts) = token_len n t + tokens_len n ts

-- A key that is known belongs to some key pair.
pub record IsOwned (R D : Type 0) ⦃ops : Dh R D⦄ ⦃laws : DhLaws R D⦄ (known : Bytes) : Type 0 where
  pub owner : D
  pub pair : ops.pubkey owner ≡ laws.public (ops.privkey owner)
  pub key : take (ops.pub_len owner) known ≡ ops.pubkey owner

module _ {R C H D : Type 0} ⦃cipher_ops : Cipher C⦄ ⦃hash_ops : Hash H⦄ ⦃ops : Dh R D⦄
    ⦃laws : DhLaws R D⦄ where
  -- A side that can write, with at most so many messages sent under its key.
  pub record IsWriter (hs : HandshakeState R C H D) (count : ℕ) : Type 0 where
    pub running : IsRunning hs.symmetricstate count
    pub e_len : ops.pub_len hs.e.inner ≡ dh_len hs
    pub s_pair : hs.s.is_on ≡ true → ops.pubkey hs.s.inner ≡ laws.public (ops.privkey hs.s.inner)
    pub e_pair : hs.e.is_on ≡ true → ops.pubkey hs.e.inner ≡ laws.public (ops.privkey hs.e.inner)
    pub fixed_pair :
        hs.fixed_ephemeral ≡ true → ops.pubkey hs.e.inner ≡ laws.public (ops.privkey hs.e.inner)
    pub rs_owned : hs.rs.is_on ≡ true → IsOwned R D hs.rs.inner
    pub re_owned : hs.re.is_on ≡ true → IsOwned R D hs.re.inner

  abbrev pub own_keys : HandshakeState R C H D → Known
  own_keys hs = record { static = hs.s.is_on; ephemeral = hs.e.is_on }

module _ {R D : Type 0} ⦃ops : Dh R D⦄ ⦃laws : DhLaws R D⦄ ⦃total : DhTotal R D⦄ where
  -- `dh` of two keys that are there.
  secret_of :
      (own : Toggle D) (known : Toggle Bytes)
      → (own.is_on ≡ true → ops.pubkey own.inner ≡ laws.public (ops.privkey own.inner))
      → (known.is_on ≡ true → IsOwned R D known.inner)
      → own.is_on ≡ true
      → known.is_on ≡ true
      → (out : Bytes) × (ops.dh own.inner known.inner (replicate maxdhlen 0) ≡ (ok tt, out))
        × (length out ≡ maxdhlen)
  secret_of own known pair owned on on' =
      let o = owned on' in
      let zeros_len = length-replicate {A = ℕ} maxdhlen 0 in
      let (out, e, len) =
        total.dh_ok own.inner o.owner known.inner (replicate maxdhlen 0) (pair on) o.pair o.key
          (omega (arith, zeros_len, laws.pub_len_bound own.inner)) in
      (out, e, len ∙ zeros_len)

module _ {R C H D : Type 0} ⦃cipher_ops : Cipher C⦄ ⦃hash_ops : Hash H⦄ ⦃ops : Dh R D⦄
    ⦃laws : DhLaws R D⦄ ⦃total : DhTotal R D⦄ where
  dh_returns :
      (hs : HandshakeState R C H D) (count : ℕ) (t : DhToken)
      → IsWriter hs count
      → is_known t (not hs.initiator) (own_keys hs) ≡ true
      → is_known t hs.initiator (record { static = hs.rs.is_on; ephemeral = hs.re.is_on }) ≡ true
      → (out : Bytes) × (dh hs t ≡ ok out) × (length out ≡ maxdhlen)
  unfolding dh
  dh_returns hs count ee w own known =
      let (out, e, len) = secret_of hs.e hs.re w.e_pair w.re_owned own known in
      (out, ground (arith, e, own, known), len)
  dh_returns hs count ss w own known =
      let (out, e, len) = secret_of hs.s hs.rs w.s_pair w.rs_owned own known in
      (out, ground (arith, e, own, known), len)
  dh_returns hs count se w own known = elim (Bool-cases hs.initiator) [
    | inl i ↦
        let a : hs.s.is_on ≡ true = ground (arith, i, own) in
        let b : hs.re.is_on ≡ true = ground (arith, i, known) in
        let (out, e, len) = secret_of hs.s hs.re w.s_pair w.re_owned a b in
        (out, ground (arith, i, e, a, b), len)
    | inr i ↦
        let a : hs.e.is_on ≡ true = ground (arith, i, own) in
        let b : hs.rs.is_on ≡ true = ground (arith, i, known) in
        let (out, e, len) = secret_of hs.e hs.rs w.e_pair w.rs_owned a b in
        (out, ground (arith, i, e, a, b), len)
  ]
  dh_returns hs count es w own known = elim (Bool-cases hs.initiator) [
    | inl i ↦
        let a : hs.e.is_on ≡ true = ground (arith, i, own) in
        let b : hs.rs.is_on ≡ true = ground (arith, i, known) in
        let (out, e, len) = secret_of hs.e hs.rs w.e_pair w.rs_owned a b in
        (out, ground (arith, i, e, a, b), len)
    | inr i ↦
        let a : hs.s.is_on ≡ true = ground (arith, i, own) in
        let b : hs.re.is_on ≡ true = ground (arith, i, known) in
        let (out, e, len) = secret_of hs.s hs.re w.s_pair w.re_owned a b in
        (out, ground (arith, i, e, a, b), len)
  ]
