-- ===== src/SymmetricState/Total.antt =====
-- That the operations of src/symmetricstate.rs return: no slice is out of bounds, and the cipher has
-- its key and a nonce left.
use screech.Base.{
  ℕ, ◌+◌, ◌≤◌, ◌<◌, ◌≡◌, refl, ◌∙◌, true, [], ◌++◌, replicate, Bytes, length, take, drop,
  length-append, length-drop, length-take, length-replicate, Bool-cases, inl, inr, arith,
}
use screech.Constants.{maxhashlen, cipherkeylen, taglen}
use screech.Outcome.{ok, copy_slices}
use screech.Types.{Cipher, Hash, u64_max}
use screech.Types.Laws.{CipherLaws, HashLaws}
use screech.Types.Total.{HashSizes, hkdf_two, hkdf_three}
use screech.CipherState
use screech.CipherState.{CipherState}
use screech.SymmetricState.Sync.{IsUsable, sealed, stepped, overhead, length-sealed, encrypt_sealed}
use screech.SymmetricState.{
  SymmetricState, mix_hash, mix_key, mix_key_and_hash, encrypt_and_mix_hash, split,
}

-- A symmetric state with whole buffers, whose cipher state has a key where one is used, and has sent
-- at most so many messages under it.
pub record IsRunning {C H : Type 0} (self : SymmetricState C H) (sent : ℕ) : Type 0 where
  pub h_len : length self.inner.h ≡ maxhashlen
  pub ck_len : length self.inner.ck ≡ maxhashlen
  pub keyed : self.inner.has_key ≡ true → self.cipherstate.has_key ≡ true
  pub nonce : self.cipherstate.n ≤ sent

pub IsRunning-more :
    {C H : Type 0} (st : SymmetricState C H) (n m : ℕ) → IsRunning st n → n ≤ m → IsRunning st m
IsRunning-more st n m run le = record {
  h_len = run.h_len;
  ck_len = run.ck_len;
  keyed = run.keyed;
  nonce = omega (arith, run.nonce, le);
}

module _ {C H : Type 0} ⦃cipher_ops : Cipher C⦄ ⦃ops : Hash H⦄ ⦃laws : HashLaws H⦄ where
  pub mix_hash_returns :
      (text : Bytes) (self : SymmetricState C H) (sent : ℕ)
      → IsRunning self sent
      → (after : SymmetricState C H) × (mix_hash text self ≡ (ok tt, after)) × IsRunning after sent
  unfolding mix_hash
  mix_hash_returns text self sent run =
      let h1 = ops.reset self.hasher in
      let h2 = ops.input text (ops.input (take (ops.hash_len self.hasher) self.inner.h) h1) in
      let old = self.inner.h in
      let r = laws.result_digest h2 old (omega (arith, run.h_len, laws.hash_len_bound h2)) in
      let h = laws.digest h2 ++ drop (ops.hash_len h2) old in
      (
        record self { hasher = laws.finalized h2; inner = record self.inner { h = h } },
        ground (arith, r, run.h_len, laws.hash_len_bound self.hasher),
        record {
          h_len = omega (
            arith,
            run.h_len,
            laws.hash_len_bound h2,
            laws.length-digest h2,
            length-append (laws.digest h2) (drop (ops.hash_len h2) old),
            length-drop (ops.hash_len h2) old,
          );
          ck_len = run.ck_len;
          keyed = run.keyed;
          nonce = run.nonce;
        },
      )

module _ {C : Type 0} ⦃cipher_ops : Cipher C⦄ ⦃cipher_laws : CipherLaws C⦄ where
  abbrev keyed_with : Bytes → CipherState C → CipherState C
  keyed_with key c = record { cipher = (cipher_ops.set key c.cipher).1; n = 0; has_key = true }

  set_returns :
      (key : Bytes) (c : CipherState C)
      → length key ≡ cipherkeylen
      → CipherState.set key 0 c ≡ (ok tt, keyed_with key c)
  unfolding CipherState.set
  set_returns key c len = ground (arith, cipher_laws.set_ok key c.cipher len)

-- The first bytes of a whole output as a key.
length-key : (out : Bytes) → length out ≡ maxhashlen → length (take cipherkeylen out) ≡ cipherkeylen
length-key out len = omega (arith, len, length-take cipherkeylen out)

length-copied :
    (xs out : Bytes)
    → length xs ≡ maxhashlen
    → length out ≡ maxhashlen
    → length (xs ++ drop (length xs) out) ≡ maxhashlen
length-copied xs out a b =
    omega (arith, a, b, length-append xs (drop (length xs) out), length-drop (length xs) out)

module _ {C H : Type 0} ⦃cipher_ops : Cipher C⦄ ⦃ops : Hash H⦄ ⦃cipher_laws : CipherLaws C⦄
    ⦃laws : HashLaws H⦄ ⦃sizes : HashSizes H⦄ where
  pub mix_key_returns :
      (text : Bytes) (self : SymmetricState C H) (sent : ℕ)
      → IsRunning self sent
      → (after : SymmetricState C H) × (mix_key text self ≡ (ok tt, after)) × IsRunning after sent
  unfolding mix_key copy_slices
  mix_key_returns text self sent run =
      let bound = laws.hash_len_bound self.hasher in
      let zeros : Bytes = replicate maxhashlen 0 in
      let ck = take (ops.hash_len self.hasher) self.inner.ck in
      let (h', p1, p2, e, l1, l2) =
        hkdf_two ck text self.hasher zeros zeros []
          (omega (arith, bound, length-take (ops.hash_len self.hasher) self.inner.ck))
          (length-replicate {A = ℕ} maxhashlen 0) (length-replicate {A = ℕ} maxhashlen 0) in
      let key = take cipherkeylen p2 in
      let set = set_returns key self.cipherstate (length-key p2 l2) in
      (
        record {
          cipherstate = keyed_with key self.cipherstate;
          hasher = h';
          inner = record {
            h = self.inner.h;
            ck = p1 ++ drop (length p1) self.inner.ck;
            has_key = true;
          };
        },
        ground (arith, bound, run.ck_len, e, l1, l2, set),
        record {
          h_len = run.h_len;
          ck_len = length-copied p1 self.inner.ck l1 run.ck_len;
          keyed = λ _. refl;
          nonce = omega arith;
        },
      )

  pub mix_key_and_hash_returns :
      (text : Bytes) (self : SymmetricState C H) (sent : ℕ)
      → IsRunning self sent
      → (after : SymmetricState C H) × (mix_key_and_hash text self ≡ (ok tt, after))
        × IsRunning after sent
  unfolding mix_key_and_hash copy_slices
  mix_key_and_hash_returns text self sent run =
      let bound = laws.hash_len_bound self.hasher in
      let zeros : Bytes = replicate maxhashlen 0 in
      let zeros_len = length-replicate {A = ℕ} maxhashlen 0 in
      let ck = take (ops.hash_len self.hasher) self.inner.ck in
      let (h', p1, p2, p3, e, l1, l2, l3) =
        hkdf_three ck text self.hasher zeros zeros zeros
          (omega (arith, bound, length-take (ops.hash_len self.hasher) self.inner.ck)) zeros_len
          zeros_len zeros_len in
      let mid : SymmetricState C H = record {
        cipherstate = self.cipherstate;
        hasher = h';
        inner = record self.inner { ck = p1 ++ drop (length p1) self.inner.ck };
      } in
      let mid_run : IsRunning mid sent = record {
        h_len = run.h_len;
        ck_len = length-copied p1 self.inner.ck l1 run.ck_len;
        keyed = run.keyed;
        nonce = run.nonce;
      } in
      let (mixed, em, mixed_run) =
        mix_hash_returns (take (ops.hash_len self.hasher) p2) mid sent mid_run in
      let key = take cipherkeylen p3 in
      let set = set_returns key mixed.cipherstate (length-key p3 l3) in
      (
        record mixed { cipherstate = keyed_with key mixed.cipherstate },
        ground (arith, bound, run.ck_len, e, l1, l2, l3, em, set),
        record {
          h_len = mixed_run.h_len;
          ck_len = mixed_run.ck_len;
          keyed = λ _. refl;
          nonce = omega arith;
        },
      )

  pub split_returns :
      (self : SymmetricState C H) (children : CipherState C × CipherState C) (sent : ℕ)
      → IsRunning self sent
      → (after : SymmetricState C H × (CipherState C × CipherState C)) × (split (self, children)
          ≡ (ok tt, after))
        × IsRunning after.0 sent
  unfolding split
  split_returns self (c1, c2) sent run =
      let bound = laws.hash_len_bound self.hasher in
      let zeros : Bytes = replicate maxhashlen 0 in
      let zeros_len = length-replicate {A = ℕ} maxhashlen 0 in
      let ck = take (ops.hash_len self.hasher) self.inner.ck in
      let (h', p1, p2, e, l1, l2) =
        hkdf_two ck [] self.hasher zeros zeros []
          (omega (arith, bound, length-take (ops.hash_len self.hasher) self.inner.ck)) zeros_len
          zeros_len in
      let set1 = set_returns (take cipherkeylen p1) c1 (length-key p1 l1) in
      let set2 = set_returns (take cipherkeylen p2) c2 (length-key p2 l2) in
      (
        (
          record self { hasher = h' },
          (keyed_with (take cipherkeylen p1) c1, keyed_with (take cipherkeylen p2) c2),
        ),
        ground (arith, bound, run.ck_len, e, l1, l2, set1, set2),
        record { h_len = run.h_len; ck_len = run.ck_len; keyed = run.keyed; nonce = run.nonce },
      )

  stepped-IsRunning :
      (self : SymmetricState C H) (sent : ℕ)
      → IsRunning self sent
      → IsRunning (stepped self) (sent + 1)
  unfolding stepped
  stepped-IsRunning self sent run = elim (Bool-cases self.inner.has_key) [
    | inl e ↦ ground (arith, e, run)
    | inr e ↦ ground (arith, e, run)
  ]

  overhead_bound : (self : SymmetricState C H) → overhead self ≤ taglen
  unfolding overhead
  overhead_bound self = ground arith

  -- With room for the text and a tag, and a nonce left.
  pub encrypt_runs :
      (pt out : Bytes) (self : SymmetricState C H) (sent : ℕ)
      → IsRunning self sent
      → sent < u64_max
      → length pt + taglen ≤ length out
      → (n : ℕ) × (after : SymmetricState C H) × (out' : Bytes) × (encrypt_and_mix_hash pt
            (self, out)
          ≡ (ok n, (after, out')))
        × IsRunning after (sent + 1)
        × (length out' ≡ length out)
        × (n ≤ length pt + taglen)
  encrypt_runs pt out self sent run left room =
      let usable : IsUsable self = record {
        keyed = λ e. record { keyed = run.keyed e; room = omega (arith, run.nonce, left) };
        hashed = omega (arith, run.h_len, laws.hash_len_bound self.hasher);
      } in
      let text = sealed self pt in
      let len = length-sealed self pt in
      let over = overhead_bound self in
      let fits : length pt + overhead self ≤ length out = omega (arith, over, room) in
      let (after, e, mixed) =
        mix_hash_returns text (stepped self) (sent + 1) (stepped-IsRunning self sent run) in
      (
        length text,
        after,
        text ++ drop (length text) out,
        encrypt_sealed self pt out usable fits ∙ cc e,
        mixed,
        omega (
          arith,
          len,
          fits,
          length-append text (drop (length text) out),
          length-drop (length text) out,
        ),
        omega (arith, len, over),
      )
