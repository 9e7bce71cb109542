-- ===== src/TransportState/Links.antt =====
-- A call of src/transportstate.rs that returns, seen from the direction that it belongs to.
use native.Mathlib.Decide.{dec_lt, dec_le}
use screech.Base.{
  ℕ, ◌+◌, ◌≤◌, ◌≡◌, sym, ap, ◌∙◌, true, false, ◌&&◌, List, [], ◌∷◌, ◌++◌, Bytes, length, take, drop,
  take-append_self, Bool-cases, inl, inr, arith,
}
use screech.Constants.{taglen}
use screech.Outcome.{ok}
use screech.Params.Pattern.{is_oneway}
use screech.Types.{Cipher, u64_max}
use screech.Types.Laws.{CipherLaws}
use screech.CipherState.{CipherState}
use screech.CipherState.Seal.{IsReady, advanced}
use screech.TransportState.{TransportState, write_message, read_message}
use screech.TransportState.Messages.{
  sender, receiver, with_sender, with_receiver, write_message_ok, write_message_inv,
  read_message_ok, read_message_oneway, read_message_small, read_message_exhausted,
}
use screech.TransportState.Channel.{IsLinked, IsLinked-send, IsLinked-receive, seals}

module _ {C : Type 0} where
  pub sender-with_sender : (t : TransportState C) (c : CipherState C) → sender (with_sender t c) ≡ c
  sender-with_sender t c = ground arith

  receiver-with_sender :
      (t : TransportState C) (c : CipherState C) → receiver (with_sender t c) ≡ receiver t
  receiver-with_sender t c = ground arith

  pub receiver-with_receiver :
      (t : TransportState C) (c : CipherState C) → receiver (with_receiver t c) ≡ c
  receiver-with_receiver t c = ground arith

  sender-with_receiver :
      (t : TransportState C) (c : CipherState C) → sender (with_receiver t c) ≡ sender t
  sender-with_receiver t c = ground arith

take_front : (n : ℕ) (xs ys : Bytes) → n ≡ length xs → take n (xs ++ ys) ≡ xs
take_front n xs ys e = ap (λ k. take k (xs ++ ys)) e ∙ take-append_self xs ys

module _ {C : Type 0} ⦃ops : Cipher C⦄ ⦃laws : CipherLaws C⦄ where
  wrote :
      (t : TransportState C) (payload out : Bytes) {n : ℕ} {t' : TransportState C} {out' : Bytes}
      → (sender t).has_key ≡ true
      → write_message payload (t, out) ≡ (ok n, (t', out'))
      → (sender t' ≡ advanced (sender t))
        × (receiver t' ≡ receiver t)
        × (take n out' ≡ laws.seal (sender t).cipher (sender t).n [] payload)
  wrote t payload out {n} {t'} {out'} keyed returned =
      let (ready, allowed) = write_message_inv t payload out keyed returned in
      let done = write_message_ok t payload out ready allowed in
      let sealed = laws.seal (sender t).cipher (sender t).n [] payload in
      let rest = drop (length payload + taglen) out in
      let c = advanced (sender t) in
      let same : t' ≡ with_sender t c = cc (done, returned) in
      let text : out' ≡ sealed ++ rest = cc (done, returned) in
      let count : n ≡ length payload + taglen = cc (done, returned) in
      (
        ap sender same ∙ sender-with_sender t c,
        ap receiver same ∙ receiver-with_sender t c,
        ap (take n) text
            ∙ take_front n sealed rest
                (count ∙ sym (laws.length-seal (sender t).cipher (sender t).n [] payload)),
      )

  pub write_links :
      (t : TransportState C) (payload out : Bytes) {n : ℕ} {t' : TransportState C} {out' : Bytes}
      {rx : CipherState C} {queue sent got pending : List Bytes}
      → write_message payload (t, out) ≡ (ok n, (t', out'))
      → IsLinked (sender t) rx queue sent got pending
      → IsLinked
          (sender t')
          rx
          (queue ++ take n out' ∷ [])
          (sent ++ payload ∷ [])
          got
          (pending ++ payload ∷ [])
  write_links t payload out returned h =
      let (tx', _, message) = wrote t payload out h.tx_keyed returned in
      rw (tx', message) (IsLinked-send payload h)

  pub write_keeps_receiver :
      (t : TransportState C) (payload out : Bytes) {n : ℕ} {t' : TransportState C} {out' : Bytes}
      → (sender t).has_key ≡ true
      → write_message payload (t, out) ≡ (ok n, (t', out'))
      → receiver t' ≡ receiver t
  write_keeps_receiver t payload out keyed returned = (wrote t payload out keyed returned).1

  read_inv :
      (t : TransportState C) (payload out : Bytes) {n : ℕ} {after : TransportState C × Bytes}
      → (receiver t).has_key ≡ true
      → read_message (laws.seal (receiver t).cipher (receiver t).n [] payload) (t, out)
        ≡ (ok n, after)
      → ((t.initiator && is_oneway t.pattern) ≡ false)
        × (length payload ≤ length out)
        × IsReady (receiver t)
  read_inv t payload out {n} {after} keyed returned =
      elim (Bool-cases (t.initiator && is_oneway t.pattern)) [
        | inl oneway ↦ cc (
          read_message_oneway t (laws.seal (receiver t).cipher (receiver t).n [] payload) out
              oneway,
          returned,
        )
        | inr allowed ↦ elim (dec_le (length payload) (length out)) [
          | no small ↦ cc (read_message_small t payload out allowed (omega arith), returned)
          | yes fits ↦ elim (dec_lt (receiver t).n u64_max) [
            | yes room ↦ (allowed, fits, record { keyed = keyed; room = room })
            | no last ↦
                cc (read_message_exhausted t payload out keyed allowed fits (omega arith), returned)
          ]
        ]
      ]

  read :
      (t : TransportState C) (payload out : Bytes) {n : ℕ} {t' : TransportState C} {out' : Bytes}
      → (receiver t).has_key ≡ true
      → read_message (laws.seal (receiver t).cipher (receiver t).n [] payload) (t, out)
        ≡ (ok n, (t', out'))
      → (receiver t' ≡ advanced (receiver t)) × (sender t' ≡ sender t) × (take n out' ≡ payload)
  read t payload out {n} {t'} {out'} keyed returned =
      let (allowed, fits, ready) = read_inv t payload out keyed returned in
      let done = read_message_ok t payload out ready allowed fits in
      let c = advanced (receiver t) in
      let same : t' ≡ with_receiver t c = cc (done, returned) in
      let rest = laws.behind (receiver t).cipher (receiver t).n [] payload out in
      let text : out' ≡ payload ++ rest = cc (done, returned) in
      let count : n ≡ length payload = cc (done, returned) in
      (
        ap receiver same ∙ receiver-with_receiver t c,
        ap sender same ∙ sender-with_receiver t c,
        ap (take n) text ∙ take_front n payload rest count,
      )

  pub read_links :
      (t : TransportState C) (m out : Bytes) (rest : List Bytes) {n : ℕ} {t' : TransportState C}
      {out' : Bytes} {tx : CipherState C} {queue sent got : List Bytes} (pending : List Bytes)
      → queue ≡ m ∷ rest
      → read_message m (t, out) ≡ (ok n, (t', out'))
      → IsLinked tx (receiver t) queue sent got pending
      → (left : List Bytes) × IsLinked tx (receiver t') rest sent (got ++ take n out' ∷ []) left
        × (sender t' ≡ sender t)
  unfolding seals
  read_links t m out rest [] front returned h = cc (h.in_flight, front)
  read_links t m out rest {n} {t'} {out'} {tx} {queue} {sent} {got} (p ∷ pending) front returned h =
      let head : m ≡ laws.seal (receiver t).cipher (receiver t).n [] p = cc (h.in_flight, front) in
      let tail : rest ≡ seals (receiver t).cipher ((receiver t).n + 1) pending =
        cc (h.in_flight, front) in
      let (rx', tx', text) = read t p out h.rx_keyed (rw head at returned) in
      (pending, rw (rx', text, tail) (IsLinked-receive p pending h), tx')
