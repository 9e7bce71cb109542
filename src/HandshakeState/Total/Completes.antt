-- ===== src/HandshakeState/Total/Completes.antt =====
-- A handshake goes through to its end (src/handshakestate.rs).
use screech.Base.{
  ℕ, zero, suc, ◌+◌, ◌≤◌, ◌≡◌, refl, sym, ap, ◌∙◌, true, List, [], ◌∷◌, some, Bytes, length, take,
  drop, get_elem?, length-drop, arith,
}
use screech.Constants.{taglen, maxmsglen}
use screech.Outcome.{Outcome, ok, ◌>>=◌}
use screech.Types.{Cipher, Hash, Dh, u64_max}
use screech.Types.Laws.{CipherLaws, HashLaws, DhLaws}
use screech.Types.Total.{HashSizes, DhTotal}
use screech.Params.Table.{Token, MessagePatterns}
use screech.HandshakeState.{HandshakeState, dh_len, is_handshake_finished}
use screech.HandshakeState.Write.{write_message}
use screech.HandshakeState.Read.{read_message}
use screech.HandshakeState.InStep.Conversation.{Talk, silent, message, IsReady}
use screech.HandshakeState.Total.{tokens_len}
use screech.HandshakeState.Total.Exchange.{IsAble, GoesThrough, goes_through}

-- What a message is sent with: its payload, the writer's buffer and the reader's.
pub record Letter : Type 0 where
  pub payload : Bytes
  pub out : Bytes
  pub buffer : Bytes

module _ {R C H D : Type 0} ⦃cipher_ops : Cipher C⦄ ⦃hash_ops : Hash H⦄ ⦃ops : Dh R D⦄ where
  -- A letter to the reader: what it reads, and the next writer and reader.
  unfoldable pub deliver :
      Letter
      → HandshakeState R C H D
      → HandshakeState R C H D
      → Outcome (Bytes × HandshakeState R C H D × HandshakeState R C H D)
  deliver l w r =
      let (wrote, (w', text)) = write_message l.payload (w, l.out) in
      do
        n ← wrote
        let (got, (r', buffer)) = read_message (take n text) (r, l.buffer)
        m ← got
        ok (take m buffer, r', w')

  -- The letters, one by one, each from the reader of the one before.
  unfoldable pub correspond :
      List Letter
      → HandshakeState R C H D
      → HandshakeState R C H D
      → Outcome (List Bytes × HandshakeState R C H D × HandshakeState R C H D)
  correspond [] w r = ok ([], w, r)
  correspond (l ∷ ls) w r = do
    (heard, r', w') ← deliver l w r
    (later, a, b) ← correspond ls r' w'
    ok (heard ∷ later, a, b)

abbrev pub payloads : List Letter → List Bytes
payloads [] = []
payloads (l ∷ ls) = l.payload ∷ payloads ls

-- The buffers hold the messages, the longest of which has this many bytes for each key.
abbrev pub Fit : ℕ → MessagePatterns → List Letter → Type 0
Fit n [] [] = Unit
Fit n [] (l ∷ ls) = ⊥
Fit n (ts ∷ msgs) [] = ⊥
Fit n (ts ∷ msgs) (l ∷ ls) =
    (tokens_len n ts + length l.payload + taglen ≤ length l.out)
    × (tokens_len n ts + length l.payload + taglen ≤ maxmsglen)
    × (length l.payload ≤ length l.buffer)
    × Fit n msgs ls

-- At most so many texts are sealed on the way.
abbrev pub seals_bound : MessagePatterns → ℕ
seals_bound [] = 0
seals_bound (ts ∷ msgs) = length ts + 1 + seals_bound msgs

get_elem?-of_drop :
    (i : ℕ) (xs : MessagePatterns) {x : List Token} {ys : MessagePatterns}
    → drop i xs ≡ x ∷ ys
    → (get_elem? xs i ≡ some x) × (drop (suc i) xs ≡ ys) × (suc i ≤ length xs)
get_elem?-of_drop zero [] e = cc e
get_elem?-of_drop (suc i) [] e = cc e
get_elem?-of_drop zero (y ∷ xs) e = (cc e, cc e, omega arith)
get_elem?-of_drop (suc i) (y ∷ xs) e =
    let (a, b, c) = get_elem?-of_drop i xs e in (a, b, omega (arith, c))

module _ {R C H D : Type 0} ⦃cipher_ops : Cipher C⦄ ⦃hash_ops : Hash H⦄ ⦃ops : Dh R D⦄ where
  pub Talk-append :
      {w r a b c d : HandshakeState R C H D} → Talk w r a b → Talk a b c d → Talk w r c d
  Talk-append s silent = s
  Talk-append s (message payload out buffer t fits returned) =
      message payload out buffer (Talk-append s t) fits returned

module _ {R C H D : Type 0} ⦃cipher_ops : Cipher C⦄ ⦃hash_ops : Hash H⦄ ⦃ops : Dh R D⦄
    ⦃laws : DhLaws R D⦄ ⦃cipher_laws : CipherLaws C⦄ ⦃hash_laws : HashLaws H⦄ ⦃sizes : HashSizes H⦄
    ⦃total : DhTotal R D⦄ where
  delivered :
      (l : Letter) (w r : HandshakeState R C H D) {count : ℕ}
      → (g : GoesThrough l.payload l.out l.buffer w r count)
      → deliver l w r
        ≡ ok (l.payload, (read_message (take g.number g.text) (r, l.buffer)).1.0, g.after)
  unfolding deliver
  delivered l w r g = ground (arith, g.is, g.got, g.heard)

  pub completes :
      (msgs : MessagePatterns) (letters : List Letter) (w r : HandshakeState R C H D) (count : ℕ)
      → IsReady w r
      → IsAble w r count
      → drop w.pattern_position w.message_patterns ≡ msgs
      → w.pattern_position ≤ length w.message_patterns
      → count + seals_bound msgs ≤ u64_max
      → Fit (dh_len w) msgs letters
      → (a : HandshakeState R C H D) × (b : HandshakeState R C H D) × (correspond letters w r
          ≡ ok (payloads letters, a, b))
        × Talk w r a b
        × (is_handshake_finished a ≡ true)
  unfolding correspond
  completes [] [] w r count ready able left within bound fit =
      let len = ap (λ x. length x) left in
      (
        w,
        r,
        refl,
        silent,
        ground (arith, len, within, length-drop w.pattern_position w.message_patterns),
      )
  completes [] (l ∷ ls) w r count ready able left within bound fit = absurd fit
  completes (ts ∷ msgs) [] w r count ready able left within bound fit = absurd fit
  completes (ts ∷ msgs) (l ∷ ls) w r count ready able left within bound (room, limit, fits, fit) =
      let (at, tail, next) = get_elem?-of_drop w.pattern_position w.message_patterns left in
      let g =
        goes_through l.payload l.out l.buffer ts w r count ready able at (omega (arith, bound)) room
          limit fits in
      let w' = (read_message (take g.number g.text) (r, l.buffer)).1.0 in
      let step = g.ready.in_step in
      let at' : w'.pattern_position ≡ suc w.pattern_position =
        sym step.same_position ∙ omega (arith, g.next) in
      let same : w'.message_patterns ≡ w.message_patterns = sym step.same_patterns ∙ g.patterns in
      let one : Talk w r w' g.after = message l.payload l.out l.buffer silent fits g.is in
      let sent = delivered l w r g in
      let (a, b, rest, talk, done) =
        completes msgs ls w' g.after (count + length ts + 1) g.ready g.able (rw (at', same) tail)
          (rw (at', same) next) (omega (arith, bound)) (rw g.len fit) in
      (a, b, rw (sent, rest) refl, Talk-append one talk, done)
