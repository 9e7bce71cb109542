-- ===== src/Builder/Keys.antt =====
-- The keys that `Builder::build` (src/builder.rs) sets, seen from both sides.
use screech.Base.{
  ◌≡◌, refl, sym, ap, ◌∙◌, true, false, ◌++◌, Option, none, some, Bytes, length, take, drop,
  replicate, length-append, length-drop, take-append_self, arith,
}
use screech.Constants.{maxdhlen}
use screech.Outcome.{ok, copy_slices}
use screech.Toggle.{Toggle}
use screech.Types.{Dh}
use screech.Types.Laws.{DhLaws}
use screech.HandshakeState.InStep.{Knows}
use screech.Builder.{build_rs, build_s, build_e, is_some}

module _ (R : Type 0) {D : Type 0} ⦃ops : Dh R D⦄ where
  -- A remote public key that is given is that of the private key which the other side is given.
  abbrev pub IsKeyOf : Option Bytes → Option Bytes → D → Type 0
  IsKeyOf none own d = Unit
  IsKeyOf (some k) none d = ⊥
  IsKeyOf (some k) (some key) d = k ≡ ops.pubkey (ops.set key d).1

  -- A key object that the resolver gave, with the key set if there is one.
  abbrev pub with_key : Option Bytes → D → D
  with_key none d = d
  with_key (some key) d = (ops.set key d).1

  -- It is as long as the fresh one, with a key pair if it is set.
  pub record IsKeyObject ⦃laws : DhLaws R D⦄ (own : Option Bytes) (d : D) : Type 0 where
    pub same_len : ops.pub_len (with_key own d) ≡ ops.pub_len d
    pub pair :
        is_some own ≡ true
        → ops.pubkey (with_key own d) ≡ laws.public (ops.privkey (with_key own d))

-- `rs_buf` with the key in front
abbrev pub rs_buf : Option Bytes → Bytes
rs_buf none = replicate maxdhlen 0
rs_buf (some k) = k ++ drop (length k) (replicate maxdhlen 0)

pub build_rs_inv :
    (known : Option Bytes) {rs : Toggle Bytes}
    → build_rs known ≡ ok rs
    → (rs ≡ record { inner = rs_buf known; is_on = is_some known })
      × (length (rs_buf known) ≡ maxdhlen)
unfolding build_rs copy_slices
build_rs_inv none {rs} made = ground (arith, made)
build_rs_inv (some k) {rs} made =
    let zeros : Bytes = replicate maxdhlen 0 in
    (
      ground (arith, made),
      ground (arith, made, length-append k (drop (length k) zeros), length-drop (length k) zeros),
    )

module _ {R D : Type 0} ⦃ops : Dh R D⦄ ⦃laws : DhLaws R D⦄ where
  pub build_s_inv :
      (own : Option Bytes) (d : D) {s : Toggle D}
      → build_s R own d ≡ ok s
      → IsKeyObject R own d × (s ≡ record { inner = with_key R own d; is_on = is_some own })
  unfolding build_s
  build_s_inv none d {s} made = (record { same_len = refl; pair = λ e. cc }, ground (arith, made))
  build_s_inv (some key) d {s} made =
      let (r, d') = ops.set key d in
      (
        record {
          same_len = laws.pub_len-set key d;
          pair = λ _. laws.set_pair key d (ground (arith, made));
        },
        ground (arith, made),
      )

  pub build_e_inv :
      (own : Option Bytes) (d : D) {e : Toggle D}
      → build_e R own d ≡ ok e
      → IsKeyObject R own d × (e ≡ record { inner = with_key R own d; is_on = false })
  unfolding build_e
  build_e_inv none d {e} made = (record { same_len = refl; pair = λ e. cc }, ground (arith, made))
  build_e_inv (some key) d {e} made = (
    record {
      same_len = laws.pub_len-set key d;
      pair = λ _. laws.set_pair key d (ground (arith, made));
    },
    ground (arith, made),
  )

  -- A key that is known, in the buffer and as a key pair.
  pub key_of-Knows :
      (known own : Option Bytes) (d : D)
      → IsKeyOf R known own d
      → IsKeyObject R own d
      → Knows R
          (record { inner = rs_buf known; is_on = is_some known })
          (record { inner = with_key R own d; is_on = is_some own })
  key_of-Knows none own d h set = record { owned = λ e. cc; pair = λ e. cc; key = λ e. cc }
  key_of-Knows (some k) none d h set = absurd h
  key_of-Knows (some k) (some key) d h set = record {
    owned = λ e. refl;
    pair = λ _. set.pair refl;
    key = λ _.
        let d' = (ops.set key d).1 in
        let len : ops.pub_len d' ≡ length k =
          sym (ap length h ∙ laws.length-pubkey d' (set.pair refl)) in
        ap (λ n. take n (rs_buf (some k))) len
        ∙ (take-append_self k (drop (length k) (replicate maxdhlen 0)) ∙ h);
  }
