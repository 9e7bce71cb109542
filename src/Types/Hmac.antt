-- ===== src/Types/Hmac.antt =====
-- `Hash::hmac` and `Hash::hkdf` of src/types.rs.
use Prim.Native.Nat.{bit_xor}
use screech.Base.{ℕ, ◌+◌, [], ◌∷◌, Bytes, replicate, set, length, leb, ltb, ◌==◌, if◌then◌else◌}
use screech.Constants.{maxhashlen, maxblocklen}
use screech.Exec.{Lens, Call, pure, gets, lift, modify, on, first, filling, assert, ◌>>=◌, ◌>>◌}
use screech.Outcome.{Result, ok, err, panic, slice_to, copy_slices}
use screech.Types.Traits.{Hash}

-- `for count in 0..key.len() { pad[count] ^= key[count] }`, which panics past the end of the pad.
unfoldable pub xor_into : {E : Type 0} → Bytes → Bytes → Result E Bytes
xor_into pad [] = ok pad
xor_into [] (k ∷ key) = panic
xor_into (p ∷ pad) (k ∷ key) = elim (xor_into pad key) [
  | ok rest ↦ ok (bit_xor p k ∷ rest)
  | err e ↦ err e
  | panic ↦ panic
]

-- `buffer[i] = b`
abbrev put_byte : {E : Type 0} → ℕ → ℕ → Bytes → Result E Bytes
put_byte i b buffer = if ltb i (length buffer) then ok (set buffer i b) else panic

-- `in2` and `in3`: the last output, with a number behind it.
numbered : {S : Type 0} → ℕ → ℕ → Bytes → Call S Bytes
numbered hash_len number out = do
  text ← lift (slice_to hash_len out)
  buffer ← lift (copy_slices text (replicate (maxhashlen + 1) 0))
  buffer' ← lift (put_byte hash_len number buffer)
  lift (slice_to (hash_len + 1) buffer')

-- The buffers `out1`, `out2` and `out3`.
abbrev pub Outputs : Type 0
Outputs = Bytes × Bytes × Bytes

module _ {H : Type 0} where
  abbrev out1 : Lens (H × Outputs) (H × Bytes)
  out1 = record { get = λ s. (s.0, s.1.0); put = λ t s. (t.0, (t.1, s.1.1, s.1.2)) }

  abbrev out2 : Lens (H × Outputs) (H × Bytes)
  out2 = record { get = λ s. (s.0, s.1.1); put = λ t s. (t.0, (s.1.0, t.1, s.1.2)) }

  abbrev out3 : Lens (H × Outputs) (H × Bytes)
  out3 = record { get = λ s. (s.0, s.1.2); put = λ t s. (t.0, (s.1.0, s.1.1, t.1)) }

module _ {H : Type 0} ⦃ops : Hash H⦄ where
  -- The state is the hasher and the buffer `out`.
  unfoldable pub hmac : Bytes → Bytes → Call (H × Bytes) (Unit {0})
  unfolding xor_into
  hmac key text = do
    self ← gets (λ s. s.0)
    assert (leb (length key) (ops.block_len self))
    ipad ← lift (xor_into (replicate maxblocklen 0x36) key)
    opad ← lift (xor_into (replicate maxblocklen 0x5c) key)
    on first (modify ops.reset)
    inner_pad ← lift (slice_to (ops.block_len self) ipad)
    on first (modify (ops.input inner_pad))
    on first (modify (ops.input text))
    inner_output ← on first (filling (replicate maxhashlen 0) ops.result)
    on first (modify ops.reset)
    outer_pad ← lift (slice_to (ops.block_len self) opad)
    on first (modify (ops.input outer_pad))
    inner_hash ← lift (slice_to (ops.hash_len self) inner_output)
    on first (modify (ops.input inner_hash))
    ops.result

  unfoldable pub hkdf : Bytes → Bytes → ℕ → Call (H × Outputs) (Unit {0})
  unfolding hmac numbered copy_slices
  hkdf chaining_key input_key_material outputs = do
    self ← gets (λ s. s.0)
    let hash_len = ops.hash_len self
    temp_key ← on first (filling (replicate maxhashlen 0) (hmac chaining_key input_key_material))
    on out1 (hmac temp_key (1 ∷ []))
    if outputs == 1 then pure tt else do
      s2 ← gets (λ s. s.1.0)
      in2 ← numbered hash_len 2 s2
      on out2 (hmac temp_key in2)
      if outputs == 2
          then pure tt
          else do s3 ← gets (λ s. s.1.1); in3 ← numbered hash_len 3 s3; on out3 (hmac temp_key in3)
