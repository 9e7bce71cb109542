-- ===== src/TransportState/Channel.antt =====
-- One direction of a transport session (src/transportstate.rs): a cipher state that sends, one that
-- receives, and the messages in flight between them, in order.
use screech.Base.{
  ℕ, suc, ◌+◌, ◌≡◌, refl, ap, true, List, [], ◌∷◌, ◌++◌, append_assoc, Bytes, length, length-append,
  arith,
}
use screech.Types.{Cipher}
use screech.Types.Laws.{CipherLaws}
use screech.CipherState.{CipherState}
use screech.CipherState.Seal.{advanced}

module _ {C : Type 0} ⦃ops : Cipher C⦄ ⦃laws : CipherLaws C⦄ where
  -- The payloads, sealed under consecutive nonces.
  unfoldable pub seals : C → ℕ → List Bytes → List Bytes
  seals c n [] = []
  seals c n (p ∷ ps) = laws.seal c n [] p ∷ seals c (n + 1) ps

  pub seals-snoc :
      (c : C) (n : ℕ) (ps : List Bytes) (p : Bytes)
      → seals c n (ps ++ p ∷ []) ≡ seals c n ps ++ laws.seal c (n + length ps) [] p ∷ []
  unfolding seals
  seals-snoc c n [] p = ground arith
  seals-snoc c n (q ∷ ps) p = ground (arith, seals-snoc c (n + 1) ps p)

  pub length-seals : (c : C) (n : ℕ) (ps : List Bytes) → length (seals c n ps) ≡ length ps
  unfolding seals
  length-seals c n [] = refl
  length-seals c n (p ∷ ps) = ap suc (length-seals c (n + 1) ps)

  -- The queue holds the payloads that are pending, those sent and not yet received, under the nonces
  -- that the receiver will use for them.
  pub record IsLinked (tx rx : CipherState C) (queue sent got pending : List Bytes) : Type 0 where
    pub same_key : tx.cipher ≡ rx.cipher
    pub tx_keyed : tx.has_key ≡ true
    pub rx_keyed : rx.has_key ≡ true
    pub nonces : tx.n ≡ rx.n + length pending
    pub in_flight : queue ≡ seals rx.cipher rx.n pending
    pub accounts : sent ≡ got ++ pending

  pub IsLinked-send :
      {tx rx : CipherState C} {queue sent got pending : List Bytes} (p : Bytes)
      → IsLinked tx rx queue sent got pending
      → IsLinked
          (advanced tx)
          rx
          (queue ++ laws.seal tx.cipher tx.n [] p ∷ [])
          (sent ++ p ∷ [])
          got
          (pending ++ p ∷ [])
  IsLinked-send {tx} {rx} {queue} {sent} {got} {pending} p h = record {
    same_key = h.same_key;
    tx_keyed = h.tx_keyed;
    rx_keyed = h.rx_keyed;
    nonces = omega (arith, h.nonces, length-append pending (p ∷ []));
    in_flight = cc (h.in_flight, h.same_key, h.nonces, seals-snoc rx.cipher rx.n pending p);
    accounts = cc (h.accounts, append_assoc got pending (p ∷ []));
  }

  pub IsLinked-receive :
      {tx rx : CipherState C} {queue sent got : List Bytes} (p : Bytes) (pending : List Bytes)
      → IsLinked tx rx queue sent got (p ∷ pending)
      → IsLinked tx (advanced rx) (seals rx.cipher (rx.n + 1) pending) sent (got ++ p ∷ []) pending
  IsLinked-receive {got = got} p pending h = record {
    same_key = h.same_key;
    tx_keyed = h.tx_keyed;
    rx_keyed = h.rx_keyed;
    nonces = omega (arith, h.nonces);
    in_flight = refl;
    accounts = cc (h.accounts, append_assoc got (p ∷ []) pending);
  }
