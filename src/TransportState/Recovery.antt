-- ===== src/TransportState/Recovery.antt =====
-- A transport state (src/transportstate.rs) that was handed messages which are not the other side's,
-- and `set_receiving_nonce`, which takes it back to the nonce that it expects.
use screech.Base.{
  ℕ, ◌+◌, ◌≤◌, ◌<◌, ◌≡◌, refl, ◌∙◌, List, [], ◌∷◌, ◌++◌, Bytes, length, take, take-append_self,
  arith,
}
use screech.Constants.{taglen}
use screech.Outcome.{ok}
use screech.Types.{Cipher, u64_max}
use screech.Types.Laws.{CipherLaws}
use screech.CipherState
use screech.TransportState.{TransportState, read_message, receiving_nonce, set_receiving_nonce}
use screech.TransportState.Messages.{receiver}
use screech.TransportState.Session.{Session, Reach, IsFresh, opened}
use screech.TransportState.Progress.{progress}

module _ {C : Type 0} ⦃ops : Cipher C⦄ where
  -- The state behind calls of `read_message`, each with its buffer, whatever they led to.
  unfoldable pub disturbed : List (Bytes × Bytes) → TransportState C → TransportState C
  disturbed [] t = t
  disturbed ((m, out) ∷ ms) t = disturbed ms (read_message m (t, out)).1.0

  -- A call of `read_message` changes no more than `set_receiving_nonce` overwrites.
  read-set :
      (n : ℕ) (t : TransportState C) (m out : Bytes)
      → (set_receiving_nonce n (read_message m (t, out)).1.0).1 ≡ (set_receiving_nonce n t).1
  unfolding read_message set_receiving_nonce CipherState.decrypt CipherState.decrypt_ad
  read-set n t m out = ground arith

  disturbed-set :
      (n : ℕ) (ms : List (Bytes × Bytes)) (t : TransportState C)
      → (set_receiving_nonce n (disturbed ms t)).1 ≡ (set_receiving_nonce n t).1
  unfolding disturbed
  disturbed-set n [] t = refl
  disturbed-set n ((m, out) ∷ ms) t =
      disturbed-set n ms (read_message m (t, out)).1.0 ∙ read-set n t m out

  set_same : (t : TransportState C) → (set_receiving_nonce (receiving_nonce t) t).1 ≡ t
  unfolding set_receiving_nonce receiving_nonce
  set_same t = ground arith

  recovered :
      (ms : List (Bytes × Bytes)) (t : TransportState C)
      → (set_receiving_nonce (receiving_nonce t) (disturbed ms t)).1 ≡ t
  recovered ms t = disturbed-set (receiving_nonce t) ms t ∙ set_same t

module _ {C : Type 0} ⦃ops : Cipher C⦄ ⦃laws : CipherLaws C⦄ where
  -- From two sides with the same keys and nonces, of opposite roles, under the laws of the cipher,
  -- after any interleaving of calls that return, over queues that keep the order, and after any further
  -- messages that the responder was handed, from wherever they came and whatever `read_message` made
  -- of them: once `set_receiving_nonce` has set the nonce that the responder had before these, its
  -- state is what it was before, and `read_message` of the first message in flight to it, into a
  -- buffer that holds it without its tag and at a nonce below the last one, returns, with the first
  -- payload that the initiator sent and the responder has not got yet in front of the buffer.
  pub recovers :
      {t u : TransportState C} {s : Session C} (m out : Bytes) (others : List (Bytes × Bytes))
      {rest : List Bytes}
      → IsFresh t u
      → Reach (opened t u) s
      → s.to_responder ≡ m ∷ rest
      → (receiver s.responder).n < u64_max
      → length m ≤ length out + taglen
      → let (_, v) =
          set_receiving_nonce (receiving_nonce s.responder) (disturbed others s.responder) in
        (v ≡ s.responder)
        × ((p : Bytes) × (left : List Bytes) × (s.initiator_sent ≡ s.responder_got ++ p ∷ left)
            × ((read_message m (v, out)).0 ≡ ok (length p))
            × (take (length p) (read_message m (v, out)).1.1 ≡ p))
  recovers {s = s} m out others fresh reached front room fits =
      let same = recovered others s.responder in
      let (p, left, accounts, read) = progress m out fresh reached front room fits in
      (same, (p, left, accounts, rw (same, read) refl, rw (same, read) (take-append_self p _)))
