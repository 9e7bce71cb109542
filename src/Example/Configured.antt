-- ===== src/Example/Configured.antt =====
-- The builders of both programs of src/examples/simple.rs match.
use screech.Base.{◌≡◌, refl, sym, ◌∙◌, true, none, some, replicate, set, arith}
use screech.Outcome.{ok}
use screech.Types.{Cipher, Hash, Dh}
use screech.Types.Laws.{DhLaws}
use screech.Params.Choices.{curve25519, cha_cha_poly, blake2s}
use screech.Params.NoiseParams.{parse_params}
use screech.Params.Writable.Modifiers.{has_psks}
use screech.Resolver.{Resolver}
use screech.Builder.{Builder, psk}
use screech.Builder.Matching.{IsMatching}
use screech.Example.{params, secret}
use screech.Example.Name.{the_params, parsed}
use screech.Example.Programs.{configured}

-- Two resolvers that give the same cipher, hash and key object for the example.
pub record SameSuite {R C H D : Type 0} (a b : Resolver R C H D) : Type 0 where
  pub same_cipher : b.resolve_cipher cha_cha_poly ≡ a.resolve_cipher cha_cha_poly
  pub same_hash : b.resolve_hash blake2s ≡ a.resolve_hash blake2s
  pub same_dh : b.resolve_dh curve25519 ≡ a.resolve_dh curve25519

module _ {R C H D : Type 0} ⦃cipher_ops : Cipher C⦄ ⦃hash_ops : Hash H⦄ ⦃ops : Dh R D⦄ where
  record IsConfigured (given : Resolver R C H D) (b : Builder R C H D) : Type 0 where
    pub named : b.params ≡ the_params
    pub resolved : b.resolver ≡ given
    pub remote : b.rs ≡ none
    pub prologue : b.plog ≡ none
    pub psks : b.psks ≡ set (replicate 10 none) 3 (some secret)

  configured-IsConfigured :
      (given : Resolver R C H D) {b : Builder R C H D}
      → configured given ≡ ok b
      → IsConfigured given b
  unfolding configured psk
  configured-IsConfigured given {b} made = record {
    named = ground (arith, made, parsed);
    resolved = ground (arith, made, parsed);
    remote = ground (arith, made, parsed);
    prologue = ground (arith, made, parsed);
    psks = ground (arith, made, parsed);
  }

  pub configured_params :
      (given : Resolver R C H D) {b : Builder R C H D}
      → configured given ≡ ok b
      → parse_params params ≡ ok b.params
  configured_params given made = cc (parsed, (configured-IsConfigured given made).named)

  pub configured_psks :
      (given : Resolver R C H D) {b : Builder R C H D}
      → configured given ≡ ok b
      → has_psks b.psks b.params.handshake.modifiers.list ≡ true
  configured_psks given made =
      let is = configured-IsConfigured given made in rw (is.psks, is.named) refl

module _ {R C H D : Type 0} ⦃cipher_ops : Cipher C⦄ ⦃hash_ops : Hash H⦄ ⦃ops : Dh R D⦄
    ⦃laws : DhLaws R D⦄ where
  pub configured-IsMatching :
      (a b : Resolver R C H D) {i r : Builder R C H D}
      → SameSuite a b
      → configured a ≡ ok i
      → configured b ≡ ok r
      → IsMatching i r
  configured-IsMatching a b {i} {r} same made made' =
      let is = configured-IsConfigured a made in
      let is' = configured-IsConfigured b made' in
      record {
        same_params = is'.named ∙ sym is.named;
        same_cipher = rw (is.named, is.resolved, is'.resolved) same.same_cipher;
        same_hash = rw (is.named, is.resolved, is'.resolved) same.same_hash;
        same_dh = rw (is.named, is.resolved, is'.resolved) same.same_dh;
        same_prologue = rw (is.prologue, is'.prologue) refl;
        same_psks = is'.psks ∙ sym is.psks;
        i_key = λ d e. rw is.remote tt;
        r_key = λ d e. rw is'.remote tt;
      }
