-- ===== src/HandshakeState/InStep/Delivered.antt =====
-- The payload of a handshake message (src/handshakestate.rs) from its writer to its reader.
use mathlib.Core.Path.{subst}
use screech.Base.{
  ℕ, ◌+◌, ◌-◌, ◌≤◌, ◌≡◌, sym, ap, ◌∙◌, Bool, ◌++◌, Bytes, length, take, drop, if◌then◌else◌,
  take-written, length-written, arith,
}
use screech.Constants.{taglen, maxmsglen}
use screech.Outcome.{ok}
use screech.Types.{Cipher, Hash, Dh}
use screech.Types.Laws.{CipherLaws, DhLaws}
use screech.SymmetricState.{SymmetricState, decrypt_and_mix_hash}
use screech.SymmetricState.Sync.{sealed, behind, overhead, length-sealed, length-behind}
use screech.HandshakeState.{HandshakeState}
use screech.HandshakeState.Write.{write_payload}
use screech.HandshakeState.Read.{read_payload}
use screech.HandshakeState.InStep.{InStep, known_to}
use screech.HandshakeState.InStep.Static.{encrypt_rest-IsSealed}
use screech.HandshakeState.InStep.Mixed.{with_ss, with_ss-InStep}
use screech.HandshakeState.InStep.Payload.{finish, is_last, finish_both, write_payload_inv}

module _ {C H : Type 0} ⦃cipher_ops : Cipher C⦄ ⦃hash_ops : Hash H⦄
    ⦃cipher_laws : CipherLaws C⦄ where
  payload_len :
      (ss : SymmetricState C H) (payload : Bytes)
      → let text = sealed ss payload in
        (if ss.inner.has_key then length text - taglen else length text) ≡ length payload
  unfolding overhead
  payload_len ss payload = ground (arith, length-sealed ss payload)

module _ {R C H D : Type 0} ⦃cipher_ops : Cipher C⦄ ⦃hash_ops : Hash H⦄ ⦃ops : Dh R D⦄ where
  read_payload_ok :
      (last : Bool) (text buffer : Bytes) (r : HandshakeState R C H D) {m : ℕ}
      {ss : SymmetricState C H} {buffer' : Bytes} {r' : HandshakeState R C H D}
      → decrypt_and_mix_hash text (r.symmetricstate, buffer) ≡ (ok m, (ss, buffer'))
      → finish last (with_ss r ss) ≡ (ok tt, r')
      → read_payload last text (r, buffer) ≡ (
        ok (if r'.symmetricstate.inner.has_key then length text - taglen else length text),
        (r', buffer'),
      )
  unfolding read_payload
  read_payload_ok last text buffer r decrypts finishes = ground (arith, decrypts, finishes)

module _ {R C H D : Type 0} ⦃cipher_ops : Cipher C⦄ ⦃hash_ops : Hash H⦄ ⦃ops : Dh R D⦄
    ⦃laws : DhLaws R D⦄ ⦃cipher_laws : CipherLaws C⦄ where
  -- What the writer put behind the tokens, and what the reader makes of it.
  pub record IsDelivered (w r : HandshakeState R C H D) (payload out buffer : Bytes) (i n : ℕ)
      (w' : HandshakeState R C H D) (out' : Bytes) : Type 0 where
    pub chunk : Bytes
    pub after : HandshakeState R C H D
    pub rest : Bytes
    pub count : n ≡ i + length chunk
    pub text : take n out' ≡ take i out ++ chunk
    pub limit : n ≤ maxmsglen
    pub room : n ≤ length out'
    pub reads :
        read_payload (is_last w) chunk (r, buffer) ≡ (ok (length payload), (after, payload ++ rest))
    pub buffer_len : length (payload ++ rest) ≡ length buffer
    pub in_step : InStep w' after
    pub knows : known_to after ≡ known_to r
    pub keeps : known_to w' ≡ known_to w
    pub same_role : after.initiator ≡ r.initiator

  pub payload_sent :
      (payload out buffer : Bytes) (i : ℕ) (w r : HandshakeState R C H D) {n : ℕ}
      {w' : HandshakeState R C H D} {out' : Bytes}
      → InStep w r
      → i ≤ length out
      → length payload ≤ length buffer
      → write_payload payload i (w, out) ≡ (ok n, (w', out'))
      → IsDelivered w r payload out buffer i n w' out'
  unfolding is_last
  payload_sent payload out buffer i w r {n} {w'} {out'} h within fits returned =
      let (len, w1, seals, finishes, count, limit) = write_payload_inv payload i w out returned in
      let s = encrypt_rest-IsSealed w payload out i h.synced seals in
      let chunk = sealed w.symmetricstate payload in
      let ss = w1.symmetricstate in
      let mixed : InStep w1 (with_ss r ss) =
        subst (λ x. InStep x (with_ss r ss)) (sym s.after)
          (with_ss-InStep w r ss h s.encrypted.synced) in
      let (r', finishes', in_step, flag, known, role, kept) =
        finish_both w1 (with_ss r ss) (is_last w1) mixed finishes in
      let sum : n ≡ i + length chunk = omega (arith, count, s.count) in
      let left = payload ++ behind w.symmetricstate payload buffer in
      let decrypts : decrypt_and_mix_hash chunk (r.symmetricstate, buffer)
          ≡ (ok (length payload), (ss, left)) =
        rw h.symmetric (s.encrypted.decrypts buffer fits) in
      let reads = read_payload_ok (is_last w1) chunk buffer r decrypts finishes' in
      let last : is_last w1 ≡ is_last w = ap is_last s.after in
      let m = if r'.symmetricstate.inner.has_key then length chunk - taglen else length chunk in
      let m_len : m ≡ length payload =
        rw (flag, s.encrypted.same_flag) (payload_len w.symmetricstate payload) in
      let size : length out' ≡ length out = rw s.text (length-written i out chunk s.room) in
      record {
        chunk = chunk;
        after = r';
        rest = behind w.symmetricstate payload buffer;
        count = sum;
        text =
            rw (sum, s.text) (take-written i out chunk (drop (length chunk) (drop i out)) within);
        limit = omega (arith, count, limit);
        room = omega (arith, sum, s.room, size);
        reads = rw (sym last) (reads ∙ ap (λ (k : ℕ). (ok k, (r', left))) m_len);
        buffer_len = length-behind w.symmetricstate payload buffer fits;
        in_step = in_step;
        knows = known;
        keeps = kept ∙ ap (λ x. known_to x) s.after;
        same_role = role;
      }
