-- ===== src/Params/NoiseParams.antt =====
-- `NoiseParams` of src/params/mod.rs: the parsed protocol name.
use screech.Base.{Bytes, List, [], ◌∷◌}
use screech.Error.{pattern_error, too_few_parameters}
use screech.Outcome.{Outcome, ok, err, ◌>>=◌}
use screech.Params.Choices.{
  BaseChoice, DhChoice, CipherChoice, HashChoice, parse_base, parse_dh, parse_cipher, parse_hash,
}
use screech.Params.Modifier.{HandshakeChoice, parse_choice, split}

pub record NoiseParams : Type 0 where
  pub name : Bytes
  pub base : BaseChoice
  pub handshake : HandshakeChoice
  pub dh : DhChoice
  pub cipher : CipherChoice
  pub hash : HashChoice

-- `split.next().ok_or(TooFewParameters)?.parse()?`: the value, and the iterator behind it.
abbrev pub next : {A : Type 0} → (Bytes → Outcome A) → List Bytes → Outcome (A × List Bytes)
next parse [] = err (pattern_error too_few_parameters)
next parse (s ∷ rest) = do a ← parse s; ok (a, rest)

-- `NoiseParams::from_str`: what stands behind the fifth part is not read.
unfoldable pub parse_params : Bytes → Outcome NoiseParams
parse_params s = do
  (base, r1) ← next parse_base (split b'_' s)
  (handshake, r2) ← next parse_choice r1
  (dh, r3) ← next parse_dh r2
  (cipher, r4) ← next parse_cipher r3
  (hash, _) ← next parse_hash r4
  ok (record {
    name = s;
    base = base;
    handshake = handshake;
    dh = dh;
    cipher = cipher;
    hash = hash;
  })
