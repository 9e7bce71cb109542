-- ===== src/Params/RoundTrip/Name.antt =====
-- A protocol name, printed and parsed back (src/params/mod.rs).
use screech.Base.{◌≡◌, refl, true, false, List, [], ◌∷◌, ◌++◌, Bytes, codes, not, any, arith}
use screech.Outcome.{ok}
use screech.Params.Choices.{
  noise, DhChoice, curve25519, ed448, CipherChoice, cha_cha_poly, aesgcm, HashChoice, sha256,
  sha512, blake2s, blake2b, parse_base, parse_dh, parse_cipher, parse_hash,
}
use screech.Params.Pattern.{HandshakePattern, as_str}
use screech.Params.Modifier.{HandshakeModifier, psk, fallback, HandshakeChoice, split}
use screech.Params.NoiseParams.{parse_params}
use screech.Params.RoundTrip.Numbers.{decimal, decimal_plain, is_separator}
use screech.Params.RoundTrip.Split.{holds, split-single, split-append, any-append}
use screech.Params.RoundTrip.Choice.{
  show_modifier, show_modifiers, show_choice, AreBytes, IsByte, head_IsByte, tail_AreBytes,
  parse_choice-show,
}

show_dh : DhChoice → Bytes
show_dh curve25519 = codes "25519"
show_dh ed448 = codes "448"

show_cipher : CipherChoice → Bytes
show_cipher cha_cha_poly = codes "ChaChaPoly"
show_cipher aesgcm = codes "AESGCM"

show_hash : HashChoice → Bytes
show_hash sha256 = codes "SHA256"
show_hash sha512 = codes "SHA512"
show_hash blake2s = codes "BLAKE2s"
show_hash blake2b = codes "BLAKE2b"

-- `Noise_<handshake>_<dh>_<cipher>_<hash>`
pub show_name : HandshakeChoice → DhChoice → CipherChoice → HashChoice → Bytes
unfolding show_dh show_cipher show_hash
show_name c d k h =
    codes "Noise"
    ++ b'_' ∷ (show_choice c ++ b'_' ∷ (show_dh d ++ b'_' ∷ (show_cipher k ++ b'_' ∷ show_hash h)))

not_bar : (xs : Bytes) → not (any is_separator xs) ≡ true → holds b'_' xs ≡ false
not_bar [] h = refl
not_bar (x ∷ xs) h = ground (arith, not_bar xs)

modifier_no_bar : (m : HandshakeModifier) → IsByte m → holds b'_' (show_modifier m) ≡ false
unfolding show_modifier
modifier_no_bar (psk n) h = not_bar (decimal n) (decimal_plain n h)
modifier_no_bar fallback h = refl

modifiers_no_bar :
    (ms : List HandshakeModifier) → AreBytes ms → holds b'_' (show_modifiers ms) ≡ false
unfolding show_modifiers
modifiers_no_bar [] h = refl
modifiers_no_bar (m ∷ []) h = modifier_no_bar m (head_IsByte m [] h)
modifiers_no_bar (m ∷ n ∷ ms) h =
    any-append _ (show_modifier m) (b'+' ∷ show_modifiers (n ∷ ms))
      (modifier_no_bar m (head_IsByte m (n ∷ ms) h))
      (modifiers_no_bar (n ∷ ms) (tail_AreBytes m (n ∷ ms) h))

pattern_no_bar : (p : HandshakePattern) → holds b'_' (as_str p) ≡ false
unfolding as_str
pattern_no_bar HandshakePattern.n = refl
pattern_no_bar _ = refl

choice_no_bar :
    (c : HandshakeChoice) → AreBytes c.modifiers.list → holds b'_' (show_choice c) ≡ false
unfolding show_choice
choice_no_bar c h =
    any-append _ (as_str c.pattern) (show_modifiers c.modifiers.list) (pattern_no_bar c.pattern)
      (modifiers_no_bar c.modifiers.list h)

base_name : parse_base (codes "Noise") ≡ ok noise
unfolding parse_base
base_name = refl

dh_name : (d : DhChoice) → (holds b'_' (show_dh d) ≡ false) × (parse_dh (show_dh d) ≡ ok d)
unfolding show_dh parse_dh
dh_name curve25519 = (refl, refl)
dh_name ed448 = (refl, refl)

cipher_name :
    (k : CipherChoice)
    → (holds b'_' (show_cipher k) ≡ false) × (parse_cipher (show_cipher k) ≡ ok k)
unfolding show_cipher parse_cipher
cipher_name cha_cha_poly = (refl, refl)
cipher_name aesgcm = (refl, refl)

hash_name :
    (h : HashChoice) → (holds b'_' (show_hash h) ≡ false) × (parse_hash (show_hash h) ≡ ok h)
unfolding show_hash parse_hash
hash_name sha256 = (refl, refl)
hash_name _ = (refl, refl)

split_name :
    (c : HandshakeChoice) (d : DhChoice) (k : CipherChoice) (h : HashChoice)
    → AreBytes c.modifiers.list
    → split b'_' (show_name c d k h)
      ≡ codes "Noise" ∷ show_choice c ∷ show_dh d ∷ show_cipher k ∷ show_hash h ∷ []
unfolding show_name
split_name c d k h bytes = rw (
  split-append b'_' (codes "Noise")
      (show_choice c ++ b'_' ∷ (show_dh d ++ b'_' ∷ (show_cipher k ++ b'_' ∷ show_hash h))) refl,
  split-append b'_' (show_choice c) (show_dh d ++ b'_' ∷ (show_cipher k ++ b'_' ∷ show_hash h))
      (choice_no_bar c bytes),
  split-append b'_' (show_dh d) (show_cipher k ++ b'_' ∷ show_hash h) (dh_name d).0,
  split-append b'_' (show_cipher k) (show_hash h) (cipher_name k).0,
  split-single b'_' (show_hash h) (hash_name h).0,
)

-- A protocol name that is printed from its parts, the PSK numbers within a byte, is parsed back to
-- exactly these parts and keeps the whole text as its name.
pub parse_params-show :
    (c : HandshakeChoice) (d : DhChoice) (k : CipherChoice) (h : HashChoice)
    → AreBytes c.modifiers.list
    → parse_params (show_name c d k h)
      ≡ ok (record {
        name = show_name c d k h;
        base = noise;
        handshake = c;
        dh = d;
        cipher = k;
        hash = h;
      })
unfolding parse_params
parse_params-show c d k h bytes = rw (
  split_name c d k h bytes,
  base_name,
  parse_choice-show c bytes,
  (dh_name d).1,
  (cipher_name k).1,
  (hash_name h).1,
)
