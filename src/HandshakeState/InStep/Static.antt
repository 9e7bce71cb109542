-- ===== src/HandshakeState/InStep/Static.antt =====
-- The encrypted parts of a handshake message (src/handshakestate.rs): the `s` token, written and
-- read, and what `encrypt_and_mix_hash` leaves in the message.
use screech.Base.{
  ℕ, ◌+◌, ◌≤◌, ◌≡◌, true, ◌++◌, Bytes, length, take, drop, leb, take-append_self, drop-append_self,
  length-append, length-take, length-drop, arith,
}
use screech.Error.{state, input, missing_key_material}
use screech.Exec.{Exec, pure, require, bind_inv, require_inv, ◌>>=◌, ◌>>◌}
use screech.Outcome.{ok}
use screech.Toggle.{toggle_on}
use screech.Types.{Cipher, Hash, Dh}
use screech.Types.Laws.{CipherLaws}
use screech.SymmetricState.{SymmetricState, encrypt_and_mix_hash, decrypt_and_mix_hash}
use screech.SymmetricState.Sync.{sealed, behind, overhead, length-sealed}
use screech.SymmetricState.Returned.{IsSynced, IsEncrypted, encrypt_returned}
use screech.HandshakeState.{HandshakeState, dh_len}
use screech.HandshakeState.Write.{encrypt_rest, write_s}
use screech.HandshakeState.Read.{read_s}

module _ {R C H D : Type 0} ⦃cipher_ops : Cipher C⦄ ⦃hash_ops : Hash H⦄ ⦃ops : Dh R D⦄
    ⦃laws : CipherLaws C⦄ where
  pub record IsSealed (w : HandshakeState R C H D) (pt out : Bytes) (i n : ℕ)
      (w' : HandshakeState R C H D) (out' : Bytes) : Type 0 where
    pub after : w' ≡ record w { symmetricstate = w'.symmetricstate }
    pub text :
        let chunk = sealed w.symmetricstate pt in
        out' ≡ take i out ++ (chunk ++ drop (length chunk) (drop i out))
    pub count : n ≡ length (sealed w.symmetricstate pt)
    pub room : i + length (sealed w.symmetricstate pt) ≤ length out
    pub buffer : Bytes
    pub encrypted : IsEncrypted w.symmetricstate pt (drop i out) n w'.symmetricstate buffer

  encrypt_rest_inv :
      (w : HandshakeState R C H D) (pt out : Bytes) (i : ℕ) {n : ℕ} {w' : HandshakeState R C H D}
      {out' : Bytes}
      → encrypt_rest i pt (w, out) ≡ (ok n, (w', out'))
      → (o : Bytes) × (encrypt_and_mix_hash pt (w.symmetricstate, drop i out)
          ≡ (ok n, (w'.symmetricstate, o)))
        × (out' ≡ take i out ++ o)
        × (w' ≡ record w { symmetricstate = w'.symmetricstate })
        × (i ≤ length out)
  unfolding encrypt_rest
  encrypt_rest_inv w pt out i returned =
      let (r, (ss, o)) = encrypt_and_mix_hash pt (w.symmetricstate, drop i out) in
      (
        o,
        ground (arith, returned),
        ground (arith, returned),
        ground (arith, returned),
        ground (arith, returned),
      )

  pub encrypt_rest-IsSealed :
      (w : HandshakeState R C H D) (pt out : Bytes) (i : ℕ) {n : ℕ} {w' : HandshakeState R C H D}
      {out' : Bytes}
      → IsSynced w.symmetricstate
      → encrypt_rest i pt (w, out) ≡ (ok n, (w', out'))
      → IsSealed w pt out i n w' out'
  encrypt_rest-IsSealed w pt out i {n} {w'} {out'} h returned =
      let (o, encrypts, text, after, within) = encrypt_rest_inv w pt out i returned in
      let e = encrypt_returned w.symmetricstate pt (drop i out) h encrypts in
      record {
        after = after;
        text = cc (text, e.text);
        count = e.count;
        room = omega (arith, e.room, within, length-drop i out);
        buffer = o;
        encrypted = e;
      }

  pub write_s-IsSealed :
      (w : HandshakeState R C H D) (out : Bytes) (i : ℕ) {n : ℕ} {w' : HandshakeState R C H D}
      {out' : Bytes}
      → IsSynced w.symmetricstate
      → write_s i (w, out) ≡ (ok n, (w', out'))
      → (w.s.is_on ≡ true)
        × ((len : ℕ) × (n ≡ i + len) × IsSealed w (ops.pubkey w.s.inner) out i len w' out')
  unfolding write_s
  write_s-IsSealed w out i {n} {w'} {out'} h returned =
      let key = ops.pubkey w.s.inner in
      let fits = leb (i + ops.pub_len w.s.inner) (length out) in
      let add : ℕ → Exec (HandshakeState R C H D × Bytes) ℕ = λ len. pure (i + len) in
      let body = encrypt_rest i key >>= add in
      let (set_up, checked) =
        require_inv w.s.is_on (state missing_key_material) (require fits input >> body) (w, out)
          returned in
      let (_, wrote) = require_inv fits input body (w, out) checked in
      let (len, seals, end) = bind_inv (encrypt_rest i key) add (w, out) wrote in
      (set_up, (len, cc end, encrypt_rest-IsSealed w key out i h (cc (seals, end))))

  pub read_s-sealed :
      (r : HandshakeState R C H D) (key rest : Bytes) {after : SymmetricState C H}
      → dh_len r ≡ length key
      → dh_len r ≤ length r.rs.inner
      → ((buffer : Bytes)
          → length key ≤ length buffer
          → decrypt_and_mix_hash (sealed r.symmetricstate key) (r.symmetricstate, buffer)
            ≡ (ok (length key), (after, key ++ behind r.symmetricstate key buffer)))
      → let known = take (length key) r.rs.inner in
        read_s (sealed r.symmetricstate key ++ rest) r ≡ (
          ok rest,
          record r {
            symmetricstate = after;
            rs =
                toggle_on
                  ((key ++ behind r.symmetricstate key known) ++ drop (length key) r.rs.inner);
          },
        )
  unfolding read_s overhead
  read_s-sealed r key rest {after} len room decrypts =
      let text = sealed r.symmetricstate key in
      let known = take (length key) r.rs.inner in
      let fits : length key ≤ length known =
        omega (arith, length-take (length key) r.rs.inner, len, room) in
      ground (
        arith,
        len,
        room,
        decrypts known fits,
        length-sealed r.symmetricstate key,
        take-append_self text rest,
        drop-append_self text rest,
        length-append text rest,
      )
