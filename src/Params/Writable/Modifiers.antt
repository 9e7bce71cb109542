-- ===== src/Params/Writable/Modifiers.antt =====
-- The PSK modifiers of src/params/patterns.rs ask a writer for their PSKs, and for nothing else.
use screech.Base.{
  ℕ, zero, suc, ◌≡◌, refl, sym, ap, ◌∙◌, Bool, true, not, ◌&&◌, List, [], ◌∷◌, ◌++◌, Option, Bytes,
  some, Option-cases, get_elem?, set, inl, inr, arith,
}
use screech.Params.Modifier.{HandshakeModifier, HandshakeChoice, psk, fallback}
use screech.Params.Pattern.{HandshakePattern}
use screech.Params.Table.{Token, MessagePatterns, Patterns, base_patterns}
use screech.Params.Tokens.{
  HandshakeTokens, apply_psk_modifier, apply_modifiers, try_from, change_at, tokens_of,
}
use screech.Outcome.{ok, ◌>>=◌, Result-cases}
use screech.Params.Readable.{Known, is_known, received_all}
use screech.Params.Readable.Modifiers.{end-received}
use screech.Params.Writable.{
  has_psk, sent, is_writable, sent_all, all_writable, is_writable_pattern, base-writable,
}

-- The PSKs of the modifiers are there.
abbrev pub has_psks : List (Option Bytes) → List HandshakeModifier → Bool
has_psks psks [] = true
has_psks psks (psk n ∷ ms) = has_psk psks n && has_psks psks ms
has_psks psks (fallback ∷ ms) = has_psks psks ms

-- A change of a message that leaves what its writer needs, and what both sides get.
record IsNeutral (psks : List (Option Bytes)) (f : List Token → List Token) : Type 0 where
  pub same_needs :
      (i : Bool) (own known : Known) (ts : List Token)
      → is_writable i own known psks (f ts) ≡ is_writable i own known psks ts
  pub same_gets : (k : Known) (ts : List Token) → received_all (f ts) k ≡ received_all ts k
  pub same_sent : (k : Known) (ts : List Token) → sent_all (f ts) k ≡ sent_all ts k

front_needs :
    (n : ℕ) (psks : List (Option Bytes))
    → has_psk psks n ≡ true
    → IsNeutral psks (λ msg. Token.psk n ∷ msg)
unfolding is_writable
front_needs n psks has = record {
  same_needs = λ i own known ts. ground (arith, has);
  same_gets = λ k ts. refl;
  same_sent = λ k ts. refl;
}

end-writable :
    (n : ℕ) (psks : List (Option Bytes)) (i : Bool) (own known : Known) (ts : List Token)
    → has_psk psks n ≡ true
    → is_writable i own known psks (ts ++ Token.psk n ∷ []) ≡ is_writable i own known psks ts
unfolding is_writable
end-writable n psks i own known [] has = ground (arith, has)
end-writable n psks i own known (Token.e ∷ ts) has =
    end-writable n psks i (sent Token.e own) known ts has
end-writable n psks i own known (Token.s ∷ ts) has =
    ap (λ x. own.static && x) (end-writable n psks i own known ts has)
end-writable n psks i own known (Token.psk m ∷ ts) has =
    ap (λ x. has_psk psks m && x) (end-writable n psks i own known ts has)
end-writable n psks i own known (Token.dh t ∷ ts) has =
    ap (λ x. is_known t (not i) own && (is_known t i known && x))
      (end-writable n psks i own known ts has)

end-sent :
    (n : ℕ) (k : Known) (ts : List Token) → sent_all (ts ++ Token.psk n ∷ []) k ≡ sent_all ts k
end-sent n k [] = refl
end-sent n k (t ∷ ts) = end-sent n (sent t k) ts

end_needs :
    (n : ℕ) (psks : List (Option Bytes))
    → has_psk psks n ≡ true
    → IsNeutral psks (λ msg. msg ++ Token.psk n ∷ [])
end_needs n psks has = record {
  same_needs = λ i own known ts. end-writable n psks i own known ts has;
  same_gets = end-received n;
  same_sent = end-sent n;
}

set-writable :
    (f : List Token → List Token) (i : Bool) (psks : List (Option Bytes)) (a b c d : Known)
    (msgs : MessagePatterns) (at : ℕ) {msg : List Token}
    → IsNeutral psks f
    → get_elem? msgs at ≡ some msg
    → all_writable i a b c d psks (set msgs at (f msg)) ≡ all_writable i a b c d psks msgs
unfolding all_writable
set-writable f i psks a b c d [] at h e = cc e
set-writable f i psks a b c d (ts ∷ rest) zero {msg} h e =
    let same : ts ≡ msg = cc in
    rw (same, h.same_needs i a b msg, h.same_gets d msg, h.same_sent a msg)
set-writable f i psks a b c d (ts ∷ rest) (suc at) h e =
    ap (λ x. is_writable i a b psks ts && x)
      (set-writable f (not i) psks c (received_all ts d) (sent_all ts a) b rest at h e)

change-writable :
    (f : List Token → List Token) (p : HandshakePattern) (psks : List (Option Bytes)) (q : Patterns)
    (at : ℕ) {q' : Patterns}
    → IsNeutral psks f
    → (change_at q.2 at f >>= λ msgs. ok (q.0, q.1, msgs)) ≡ ok q'
    → is_writable_pattern p psks q'.2 ≡ is_writable_pattern p psks q.2
change-writable f p psks q at {q'} h applied = elim (Option-cases (get_elem? q.2 at)) [
  | inl e ↦ ground (arith, applied, e)
  | inr (msg, e) ↦
      let same : q'.2 ≡ set q.2 at (f msg) = ground (arith, applied, e) in
      ap (λ m. is_writable_pattern p psks m) same ∙ set-writable f true psks _ _ _ _ q.2 at h e
]

psk-writable :
    (p : HandshakePattern) (psks : List (Option Bytes)) (q : Patterns) (n : ℕ) {q' : Patterns}
    → has_psk psks n ≡ true
    → apply_psk_modifier q n ≡ ok q'
    → is_writable_pattern p psks q'.2 ≡ is_writable_pattern p psks q.2
unfolding apply_psk_modifier
psk-writable p psks q zero {q'} has applied =
    change-writable (λ msg. Token.psk 0 ∷ msg) p psks q 0 {q' = q'} (front_needs 0 psks has) applied
psk-writable p psks q (suc n) {q'} has applied =
    change-writable (λ msg. msg ++ Token.psk (suc n) ∷ []) p psks q n {q' = q'}
      (end_needs (suc n) psks has) applied

modifiers-writable :
    (ms : List HandshakeModifier) (p : HandshakePattern) (psks : List (Option Bytes)) (q : Patterns)
    {q' : Patterns}
    → has_psks psks ms ≡ true
    → apply_modifiers ms q ≡ ok q'
    → is_writable_pattern p psks q'.2 ≡ is_writable_pattern p psks q.2
unfolding apply_modifiers
modifiers-writable [] p psks q {q'} has applied =
    let same : q ≡ q' = cc applied in sym (ap (λ m. is_writable_pattern p psks m.2) same)
modifiers-writable (psk n ∷ ms) p psks q {q'} has applied =
    elim (Result-cases (apply_psk_modifier q n)) [
      | inl (m, e) ↦
          modifiers-writable ms p psks m {q' = q'} (ground (arith, has)) (cc (applied, e))
          ∙ psk-writable p psks q n {q' = m} (ground (arith, has)) e
      | inr (inl (_, e)) ↦ cc (applied, e)
      | inr (inr e) ↦ cc (applied, e)
    ]
modifiers-writable (fallback ∷ ms) p psks q has applied = cc applied

-- Whenever `try_from` finds the pattern of a handshake choice with its modifiers, and the PSKs of the
-- modifiers are there: no token asks its writer for a key of its own that the builder has not asked
-- for and that no earlier token has made, nor for one of the other side that the builder has not asked
-- for and that no earlier token has brought.
pub patterns-writable :
    (choice : HandshakeChoice) (psks : List (Option Bytes)) {tokens : HandshakeTokens}
    → has_psks psks choice.modifiers.list ≡ true
    → try_from choice ≡ ok tokens
    → is_writable_pattern choice.pattern psks tokens.msg_patterns ≡ true
unfolding try_from
patterns-writable choice psks {tokens} has found =
    let p = base_patterns choice.pattern in
    elim (Result-cases (apply_modifiers choice.modifiers.list p)) [
      | inl (q, e) ↦
          let same : tokens ≡ tokens_of q = cc (found, e) in
          rw same (
            modifiers-writable choice.modifiers.list choice.pattern psks p {q' = q} has e
            ∙ base-writable choice.pattern psks)
      | inr (inl (_, e)) ↦ cc (found, e)
      | inr (inr e) ↦ cc (found, e)
    ]
