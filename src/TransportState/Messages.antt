-- ===== src/TransportState/Messages.antt =====
-- `write_message` and `read_message` of src/transportstate.rs, by whether they are accepted.
use screech.Base.{
  ℕ, ◌+◌, ◌≤◌, ◌<◌, ◌≡◌, refl, true, false, not, ◌&&◌, ◌||◌, [], ◌++◌, Bytes, length, drop, ltb,
  if◌then◌else◌, arith,
}
use native.Mathlib.Decide.{dec_lt}
use screech.Constants.{taglen, maxmsglen}
use screech.Error.{Error, state, input, one_way, decrypt}
use screech.Outcome.{Outcome, ok, err, panic}
use screech.Params.Pattern.{is_oneway}
use screech.Types.{Cipher, u64_max}
use screech.Types.Laws.{CipherLaws}
use screech.CipherState
use screech.CipherState.{CipherState, CipherStates}
use screech.CipherState.Seal.{IsReady, advanced, encrypt_ad_seal, decrypt_ad_seal}
use screech.TransportState.{TransportState, egress, ingress, write_message, read_message}

-- Why a call is refused before the cipher is used, if it is.
abbrev pub write_refused : {C : Type 0} → TransportState C → Bytes → Bytes → Outcome (Unit {0})
write_refused self payload out =
    if not self.initiator && is_oneway self.pattern
    then err (state one_way)
    else if ltb maxmsglen (length payload + taglen) || ltb (length out) (length payload + taglen)
    then err input
    else ok tt

module _ {C : Type 0} where
  -- The cipher states for what a side sends and receives, and the side with them changed.
  abbrev pub sender : TransportState C → CipherState C
  sender t = (egress t.initiator).get t.cipherstates

  abbrev pub receiver : TransportState C → CipherState C
  receiver t = (ingress t.initiator).get t.cipherstates

  abbrev pub with_sender : TransportState C → CipherState C → TransportState C
  with_sender t c = record t { cipherstates = (egress t.initiator).put c t.cipherstates }

  abbrev pub with_receiver : TransportState C → CipherState C → TransportState C
  with_receiver t c = record t { cipherstates = (ingress t.initiator).put c t.cipherstates }

module _ {C : Type 0} ⦃ops : Cipher C⦄ ⦃laws : CipherLaws C⦄ where
  encrypt_lem :
      (self : CipherState C) (pt out : Bytes)
      → IsReady self
      → length pt + taglen ≤ length out
      → CipherState.encrypt pt (self, out) ≡ (
        ok (length pt + taglen),
        (advanced self, laws.seal self.cipher self.n [] pt ++ drop (length pt + taglen) out),
      )
  unfolding CipherState.encrypt
  encrypt_lem self pt out ready fits = encrypt_ad_seal self [] pt out ready fits

  pub write_message_ok :
      (t : TransportState C) (payload out : Bytes)
      → IsReady (sender t)
      → write_refused t payload out ≡ ok tt
      → write_message payload (t, out) ≡ (
        ok (length payload + taglen),
        (
          with_sender t (advanced (sender t)),
          laws.seal (sender t).cipher (sender t).n [] payload ++ drop (length payload + taglen) out,
        ),
      )
  unfolding write_message
  write_message_ok t payload out ready allowed =
      ground (arith, allowed, encrypt_lem (sender t) payload out ready)

  pub read_message_ok :
      (t : TransportState C) (payload out : Bytes)
      → IsReady (receiver t)
      → (t.initiator && is_oneway t.pattern) ≡ false
      → length payload ≤ length out
      → read_message (laws.seal (receiver t).cipher (receiver t).n [] payload) (t, out) ≡ (
        ok (length payload),
        (
          with_receiver t (advanced (receiver t)),
          payload ++ laws.behind (receiver t).cipher (receiver t).n [] payload out,
        ),
      )
  unfolding read_message CipherState.decrypt
  read_message_ok t payload out ready allowed fits =
      ground (arith, allowed, decrypt_ad_seal (receiver t) [] payload out ready fits)

  pub write_message_refused :
      (t : TransportState C) (payload out : Bytes) {e : Error}
      → write_refused t payload out ≡ err e
      → write_message payload (t, out) ≡ (err e, (t, out))
  unfolding write_message
  write_message_refused t payload out refused = ground (arith, refused)

  write_message_exhausted :
      (t : TransportState C) (payload out : Bytes)
      → (sender t).has_key ≡ true
      → u64_max ≤ (sender t).n
      → write_refused t payload out ≡ ok tt
      → (write_message payload (t, out)).0 ≡ panic
  unfolding write_message CipherState.encrypt CipherState.encrypt_ad
  write_message_exhausted t payload out keyed last allowed =
      ground (
        arith,
        keyed,
        last,
        allowed,
        laws.encrypt_seal (sender t).cipher (sender t).n [] payload out,
      )

  pub read_message_oneway :
      (t : TransportState C) (m out : Bytes)
      → (t.initiator && is_oneway t.pattern) ≡ true
      → read_message m (t, out) ≡ (err (state one_way), (t, out))
  unfolding read_message
  read_message_oneway t m out oneway = ground (arith, oneway)

  pub read_message_small :
      (t : TransportState C) (payload out : Bytes)
      → (t.initiator && is_oneway t.pattern) ≡ false
      → length out < length payload
      → read_message (laws.seal (receiver t).cipher (receiver t).n [] payload) (t, out)
        ≡ (err decrypt, (t, out))
  unfolding read_message CipherState.decrypt CipherState.decrypt_ad
  read_message_small t payload out allowed small =
      ground (arith, allowed, small, laws.length-seal (receiver t).cipher (receiver t).n [] payload)

  pub read_message_exhausted :
      (t : TransportState C) (payload out : Bytes)
      → (receiver t).has_key ≡ true
      → (t.initiator && is_oneway t.pattern) ≡ false
      → length payload ≤ length out
      → u64_max ≤ (receiver t).n
      → (read_message (laws.seal (receiver t).cipher (receiver t).n [] payload) (t, out)).0 ≡ panic
  unfolding read_message CipherState.decrypt CipherState.decrypt_ad
  read_message_exhausted t payload out keyed allowed fits last = ground (
    arith,
    keyed,
    allowed,
    last,
    laws.length-seal (receiver t).cipher (receiver t).n [] payload,
    laws.decrypt_seal (receiver t).cipher (receiver t).n [] payload out fits,
  )

  -- A call that returns was not refused, and had a nonce left.
  pub write_message_inv :
      (t : TransportState C) (payload out : Bytes) {n : ℕ} {after : TransportState C × Bytes}
      → (sender t).has_key ≡ true
      → write_message payload (t, out) ≡ (ok n, after)
      → IsReady (sender t) × (write_refused t payload out ≡ ok tt)
  write_message_inv t payload out keyed returned = go (write_refused t payload out) refl
    where
      ready : write_refused t payload out ≡ ok tt → IsReady (sender t)
      ready allowed = record {
        keyed = keyed;
        room = elim (dec_lt (sender t).n u64_max) [
          | yes h ↦ h
          | no h ↦ cc (write_message_exhausted t payload out keyed (omega arith) allowed, returned)
        ];
      }

      go :
          (r : Outcome (Unit {0}))
          → write_refused t payload out ≡ r
          → IsReady (sender t) × (write_refused t payload out ≡ ok tt)
      go (ok u) e = (ready e, e)
      go (err x) e = cc (write_message_refused t payload out e, returned)
      go panic e = ground (arith, e)
