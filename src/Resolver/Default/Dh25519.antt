-- ===== src/Resolver/Default/Dh25519.antt =====
-- `Dh25519` of src/resolvers/default.rs.
use screech.Base.{
  ◌≤◌, ◌≡◌, refl, sym, ap, ◌∙◌, ◌++◌, Bytes, codes, length, take, take_all, drop, length-take,
  length-append, length-drop, replicate, arith,
}
use screech.Exec.{Call, ExecOf, lift, gets, modify, ◌>>=◌}
use screech.Outcome.{ok, copy_slices, slice_to}
use screech.Types.{Random, Dh}
use screech.Types.Laws.{DhLaws}
use screech.Types.Total.{DhTotal}
use screech.Resolver.Crates.{X25519, X25519Laws}

pub record Dh25519 : Type 0 where
  pub privkey : Bytes
  pub pubkey : Bytes

abbrev pub default_dh25519 : Dh25519
default_dh25519 = record { privkey = replicate 32 0; pubkey = replicate 32 0 }

module _ ⦃crate : X25519⦄ where
  -- `x25519::x25519(privkey, x25519::X25519_BASEPOINT_BYTES)`
  abbrev pub public : Bytes → Bytes
  public privkey = crate.x25519 privkey crate.basepoint

  -- `self.privkey`, and `self.pubkey` computed from it
  abbrev pub with_privkey : Bytes → Dh25519
  with_privkey privkey = record { privkey = privkey; pubkey = public privkey }

  unfoldable pub set : Bytes → Call Dh25519 (Unit {0})
  set privkey = do
    old ← gets (λ self. self.privkey)
    new ← lift (copy_slices privkey old)
    modify (λ _. with_privkey new)

  -- `pubkey[..32].try_into().unwrap()`, `copy_slices!(&result, out)`
  unfoldable pub dh : Dh25519 → Bytes → ExecOf (Unit {0}) Bytes (Unit {0})
  dh self pubkey = do
    point ← lift (slice_to 32 pubkey)
    out ← gets (λ out. out)
    out' ← lift (copy_slices (crate.x25519 self.privkey point) out)
    modify (λ _. out')

module _ {R : Type 0} ⦃rng : Random R⦄ ⦃crate : X25519⦄ where
  -- `rng.fill_bytes(&mut self.privkey)`, and the public key
  unfoldable pub generate : Call (Dh25519 × R) (Unit {0})
  generate (self, r) =
      let (privkey, r') = rng.fill_bytes (length self.privkey) r in
      (ok tt, (with_privkey privkey, r'))

  instance abbrev pub dh_25519 : Dh R Dh25519
  dh_25519 = record {
    name = λ self. codes "25519";
    pub_len = λ self. 32;
    priv_len = λ self. 32;
    set = set;
    generate = generate;
    pubkey = λ self. self.pubkey;
    privkey = λ self. self.privkey;
    dh = dh;
  }

module _ ⦃crate : X25519⦄ (laws : X25519Laws crate) where
  pub set_pair :
      (key : Bytes) (d : Dh25519)
      → (set key d).0 ≡ ok tt
      → let (_, d') = set key d in d'.pubkey ≡ public d'.privkey
  unfolding set
  set_pair key d returned = ground (arith, returned)

  -- A key with this public key in front has a first slice.
  slice_to-public :
      (d : Dh25519) (k : Bytes)
      → d.pubkey ≡ public d.privkey
      → take 32 k ≡ d.pubkey
      → slice_to {E = Unit {0}} 32 k ≡ ok (public d.privkey)
  slice_to-public d k h front =
      let len : length (take 32 k) ≡ 32 =
        ap (λ x. length x) (front ∙ h) ∙ laws.length-x25519 d.privkey crate.basepoint in
      ground (arith, len, length-take 32 k, front, h)

  pub commutes :
      (d e : Dh25519) (k l out : Bytes)
      → d.pubkey ≡ public d.privkey
      → e.pubkey ≡ public e.privkey
      → take 32 k ≡ e.pubkey
      → take 32 l ≡ d.pubkey
      → dh d k out ≡ dh e l out
  unfolding dh
  commutes d e k l out hd he hk hl =
      cc (slice_to-public e k he hk, slice_to-public d l hd hl, laws.shared d.privkey e.privkey)

  whole : (d : Dh25519) → d.pubkey ≡ public d.privkey → take 32 d.pubkey ≡ d.pubkey
  whole d h =
      let len : length d.pubkey ≡ 32 =
        ap (λ x. length x) h ∙ laws.length-x25519 d.privkey crate.basepoint in
      ap (λ k. take k d.pubkey) (sym len) ∙ take_all d.pubkey

  dh_returns :
      (d e : Dh25519) (k out : Bytes)
      → e.pubkey ≡ public e.privkey
      → take 32 k ≡ e.pubkey
      → 32 ≤ length out
      → dh d k out ≡ (ok tt, crate.x25519 d.privkey e.pubkey ++ drop 32 out)
  unfolding dh copy_slices
  dh_returns d e k out h front room =
      ground (
        arith,
        slice_to-public e k h front,
        laws.length-x25519 d.privkey (public e.privkey),
        h,
        room,
      )

module _ {R : Type 0} ⦃rng : Random R⦄ ⦃crate : X25519⦄ (laws : X25519Laws crate) where
  generate_pair : (s : Dh25519 × R) → let (_, (d, _)) = generate s in d.pubkey ≡ public d.privkey
  unfolding generate
  generate_pair s = refl

  -- The laws that the handshake relies on.
  instance pub dh_25519_laws : DhLaws R Dh25519
  dh_25519_laws = record {
    public = public;
    set_pair = set_pair laws;
    generate_pair = λ s _. generate_pair s;
    pub_len-set = λ key d. refl;
    pub_len_bound = λ d. omega arith;
    pub_len-generate = λ s. refl;
    length-pubkey = λ d h. ap (λ x. length x) h ∙ laws.length-x25519 d.privkey crate.basepoint;
    commutes = commutes laws;
  }

module _ ⦃crate : X25519⦄ (laws : X25519Laws crate) where
  -- Two objects whose private keys were set, and a buffer for the secret: `dh` of either with the
  -- public key of the other returns, with one and the same secret in front of the buffer.
  pub dh-set :
      (a b out : Bytes) (d e : Dh25519)
      → (set a d).0 ≡ ok tt
      → (set b e).0 ≡ ok tt
      → 32 ≤ length out
      → let d' = (set a d).1 in
        let e' = (set b e).1 in
        let secret = crate.x25519 d'.privkey e'.pubkey in
        (dh d' e'.pubkey out ≡ (ok tt, secret ++ drop 32 out))
        × (dh e' d'.pubkey out ≡ (ok tt, secret ++ drop 32 out))
  dh-set a b out d e hd he room =
      let d' = (set a d).1 in
      let e' = (set b e).1 in
      let pd = set_pair laws a d hd in
      let pe = set_pair laws b e he in
      let kd = whole laws d' pd in
      let ke = whole laws e' pe in
      let one = dh_returns laws d' e' e'.pubkey out pe ke room in
      (one, sym (commutes laws d' e' e'.pubkey d'.pubkey out pd pe ke kd) ∙ one)

module _ ⦃crate : X25519⦄ (laws : X25519Laws crate) where
  dh_ok :
      (d e : Dh25519) (k out : Bytes)
      → d.pubkey ≡ public d.privkey
      → e.pubkey ≡ public e.privkey
      → take 32 k ≡ e.pubkey
      → 32 ≤ length out
      → (out' : Bytes) × (dh d k out ≡ (ok tt, out')) × (length out' ≡ length out)
  dh_ok d e k out hd he front room =
      let secret = crate.x25519 d.privkey e.pubkey in
      (
        secret ++ drop 32 out,
        dh_returns laws d e k out he front room,
        omega (
          arith,
          room,
          laws.length-x25519 d.privkey e.pubkey,
          length-append secret (drop 32 out),
          length-drop 32 out,
        ),
      )

module _ {R : Type 0} ⦃rng : Random R⦄ ⦃crate : X25519⦄ (laws : X25519Laws crate) where
  generate_ok : (s : Dh25519 × R) → (generate s).0 ≡ ok tt
  unfolding generate
  generate_ok s = refl

  -- It fails on no key pair.
  instance pub dh_25519_total : DhTotal R Dh25519 ⦃laws = dh_25519_laws laws⦄
  unfolding dh_25519_laws
  dh_25519_total = record { generate_ok = generate_ok; dh_ok = dh_ok laws }
