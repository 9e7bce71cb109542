-- ===== src/Params/RoundTrip/Split.antt =====
-- `str::split` on texts joined by the separator.
use screech.Base.{ℕ, ◌≡◌, refl, Bool, false, [], ◌∷◌, ◌++◌, Bytes, ◌==◌, any, arith}
use screech.Params.Modifier.{split}

abbrev pub holds : ℕ → Bytes → Bool
holds sep s = any (λ c. c == sep) s

pub split-single : (sep : ℕ) (s : Bytes) → holds sep s ≡ false → split sep s ≡ s ∷ []
unfolding split
split-single sep [] h = refl
split-single sep (c ∷ s) h = ground (arith, split-single sep s)

pub split-append :
    (sep : ℕ) (s rest : Bytes)
    → holds sep s ≡ false
    → split sep (s ++ sep ∷ rest) ≡ s ∷ split sep rest
unfolding split
split-append sep [] rest h = ground arith
split-append sep (c ∷ s) rest h = ground (arith, split-append sep s rest)

pub any-append :
    (p : ℕ → Bool) (s t : Bytes) → any p s ≡ false → any p t ≡ false → any p (s ++ t) ≡ false
any-append p [] t hs ht = ht
any-append p (c ∷ s) t hs ht = ground (arith, any-append p s t)
