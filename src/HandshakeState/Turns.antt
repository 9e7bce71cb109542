-- ===== src/HandshakeState/Turns.antt =====
-- The turns of a handshake (src/handshakestate.rs): what a call of `write_message` or `read_message`
-- does to the position and the turn, over any sequence of calls, those that fail included.
use native.Mathlib.Numerals.{add-one}
use screech.Base.{
  ℕ, zero, suc, ◌+◌, ◌≤◌, ◌<◌, ◌≡◌, ◌≢◌, refl, Bool, true, false, not, none, some, List, [], ◌∷◌,
  Bytes, length, get_elem?, eq_bool, inl, inr, Option-cases, arith,
}
use screech.Outcome.{Outcome, ok, err, panic}
use screech.Types.{Cipher, Hash, Dh}
use screech.SymmetricState.{SymmetricStateData}
use screech.HandshakeState.{HandshakeState}
use screech.HandshakeState.Write.{write_message_inner, write_message, wrote, restored}
use screech.HandshakeState.Read.{read_message_inner, read_message, was_read}
use screech.HandshakeState.Frame.{SameStage, write_inner_stage, read_inner_stage}

-- What a call comes to that needs the turn `mine` and that began at `a`.
abbrev pub Turned :
    {R C H D : Type 0} → Bool → HandshakeState R C H D → Outcome ℕ → HandshakeState R C H D → Type 0
Turned mine a (ok n) b =
    (a.my_turn ≡ mine)
    × (a.pattern_position < length a.message_patterns)
    × (b.my_turn ≡ not mine)
    × (b.pattern_position ≡ a.pattern_position + 1)
    × (b.message_patterns ≡ a.message_patterns)
    × (b.initiator ≡ a.initiator)
Turned mine a (err e) b = SameStage a b × (b.symmetricstate.inner ≡ a.symmetricstate.inner)
Turned mine a panic b = SameStage a b

within_of_some {ℓ} :
    {A : Type ℓ} (xs : List A) (i : ℕ) {x : A} → get_elem? xs i ≡ some x → i < length xs
within_of_some [] i e = cc
within_of_some (y ∷ ys) zero e = omega arith
within_of_some (y ∷ ys) (suc i) e = omega (arith, within_of_some ys i e)

pub past_end {ℓ} : {A : Type ℓ} (xs : List A) (i : ℕ) → length xs ≤ i → get_elem? xs i ≡ none
past_end [] i h = refl
past_end (x ∷ xs) zero h = absurd (omega arith)
past_end (x ∷ xs) (suc i) h = past_end xs i (omega arith)

module _ {R C H D : Type 0} ⦃cipher_ops : Cipher C⦄ ⦃hash_ops : Hash H⦄ ⦃ops : Dh R D⦄ where
  write_inner_ok :
      (payload : Bytes) (s : HandshakeState R C H D × Bytes) {n : ℕ}
      → (write_message_inner payload s).0 ≡ ok n
      → (s.0.my_turn ≡ true) × (s.0.pattern_position < length s.0.message_patterns)
  unfolding write_message_inner
  write_inner_ok payload s e =
      elim (Option-cases (get_elem? s.0.message_patterns s.0.pattern_position)) [
        | inl none_left ↦ ground (arith, none_left)
        | inr (ts, found) ↦ ground (arith, found, within_of_some s.0.message_patterns _ found)
      ]

  read_inner_ok :
      (message : Bytes) (s : HandshakeState R C H D × Bytes) {n : ℕ}
      → (read_message_inner message s).0 ≡ ok n
      → (s.0.my_turn ≡ false) × (s.0.pattern_position < length s.0.message_patterns)
  unfolding read_message_inner
  read_inner_ok message s e =
      elim (Option-cases (get_elem? s.0.message_patterns s.0.pattern_position)) [
        | inl none_left ↦ ground (arith, none_left)
        | inr (ts, found) ↦ ground (arith, found, within_of_some s.0.message_patterns _ found)
      ]

  -- The two entry points, by the outcome of their inner function.
  abbrev finish :
      (HandshakeState R C H D → HandshakeState R C H D)
      → SymmetricStateData
      → Outcome ℕ × (HandshakeState R C H D × Bytes)
      → Outcome ℕ × (HandshakeState R C H D × Bytes)
  finish done saved (ok n, (hs, out)) = (ok n, (done hs, out))
  finish done saved (err e, (hs, out)) = (err e, (restored saved hs, out))
  finish done saved (panic, s) = (panic, s)

  write_message-eq-finish :
      (payload : Bytes) (s : HandshakeState R C H D × Bytes)
      → write_message payload s
        ≡ finish wrote s.0.symmetricstate.inner (write_message_inner payload s)
  unfolding write_message
  write_message-eq-finish payload s = ground arith

  read_message-eq-finish :
      (message : Bytes) (s : HandshakeState R C H D × Bytes)
      → read_message message s
        ≡ finish was_read s.0.symmetricstate.inner (read_message_inner message s)
  unfolding read_message
  read_message-eq-finish message s = ground arith

  finish-wrote :
      (hs : HandshakeState R C H D) (r : Outcome ℕ) (s : HandshakeState R C H D × Bytes)
      → SameStage hs s.0
      → ((n : ℕ)
          → r ≡ ok n
          → (hs.my_turn ≡ true) × (hs.pattern_position < length hs.message_patterns))
      → let (r', after) = finish wrote hs.symmetricstate.inner (r, s) in Turned true hs r' after.0
  finish-wrote hs (ok n) s stage turn = ground (arith, turn n refl)
  finish-wrote hs (err e) s stage turn = ground arith
  finish-wrote hs panic s stage turn = stage

  finish-was_read :
      (hs : HandshakeState R C H D) (r : Outcome ℕ) (s : HandshakeState R C H D × Bytes)
      → SameStage hs s.0
      → ((n : ℕ)
          → r ≡ ok n
          → (hs.my_turn ≡ false) × (hs.pattern_position < length hs.message_patterns))
      → let (r', after) = finish was_read hs.symmetricstate.inner (r, s) in
        Turned false hs r' after.0
  finish-was_read hs (ok n) s stage turn = ground (arith, turn n refl)
  finish-was_read hs (err e) s stage turn = ground arith
  finish-was_read hs panic s stage turn = stage

  -- A call of `write_message` that returns had the turn and a message left; it gives the turn away
  -- and moves on by one message, with patterns and role as they were. One that fails leaves turn,
  -- position, patterns, role, parameters and PSKs as they were and restores the hash, the chaining
  -- key and the key flag. One that panics leaves turn, position and the like.
  pub write_message-Turned :
      (payload : Bytes) (hs : HandshakeState R C H D) (out : Bytes)
      → let (r, after) = write_message payload (hs, out) in Turned true hs r after.0
  write_message-Turned payload hs out =
      let (r, after) = write_message_inner payload (hs, out) in
      rw (write_message-eq-finish payload (hs, out)) (
        finish-wrote hs r after (write_inner_stage payload (hs, out))
          (λ n e. write_inner_ok payload (hs, out) e))

  -- A call of `read_message` that returns did not have the turn and had a message left; it takes the
  -- turn and moves on by one message, with patterns and role as they were. One that fails leaves turn,
  -- position, patterns, role, parameters and PSKs as they were and restores the hash, the chaining
  -- key and the key flag. One that panics leaves turn, position and the like.
  pub read_message-Turned :
      (message : Bytes) (hs : HandshakeState R C H D) (out : Bytes)
      → let (r, after) = read_message message (hs, out) in Turned false hs r after.0
  read_message-Turned message hs out =
      let (r, after) = read_message_inner message (hs, out) in
      rw (read_message-eq-finish message (hs, out)) (
        finish-was_read hs r after (read_inner_stage message (hs, out))
          (λ n e. read_inner_ok message (hs, out) e))

  -- Any call of the two, whatever comes of it but a panic.
  pub data Step : HandshakeState R C H D → HandshakeState R C H D → Type 0 where
    writes :
        (hs : HandshakeState R C H D) (payload out : Bytes) (r : Outcome ℕ)
        (after : HandshakeState R C H D × Bytes)
        → write_message payload (hs, out) ≡ (r, after)
        → r ≢ panic
        → Step hs after.0
    reads :
        (hs : HandshakeState R C H D) (message out : Bytes) (r : Outcome ℕ)
        (after : HandshakeState R C H D × Bytes)
        → read_message message (hs, out) ≡ (r, after)
        → r ≢ panic
        → Step hs after.0

  pub data Reach (hs : HandshakeState R C H D) : HandshakeState R C H D → Type 0 where
    here : Reach hs hs
    next : {a b : HandshakeState R C H D} → Reach hs a → Step a b → Reach hs b

-- Messages with an even number are the initiator's to write.
pub is_even : ℕ → Bool
is_even zero = true
is_even (suc n) = not (is_even n)

pub is_even-zero : is_even 0 ≡ true
unfolding is_even
is_even-zero = refl

is_even-add-one : (n : ℕ) → is_even (n + 1) ≡ not (is_even n)
unfolding is_even
is_even-add-one n = rw add-one

pub record IsInTurn {R C H D : Type 0} (hs : HandshakeState R C H D) : Type 0 where
  pub turn : hs.my_turn ≡ eq_bool hs.initiator (is_even hs.pattern_position)
  pub within : hs.pattern_position ≤ length hs.message_patterns

module _ {R C H D : Type 0} where
  Turned-IsInTurn :
      (mine : Bool) (a : HandshakeState R C H D) (r : Outcome ℕ) (b : HandshakeState R C H D)
      → Turned mine a r b
      → IsInTurn a
      → IsInTurn b
  Turned-IsInTurn mine a (ok n) b t h = ground (arith, is_even-add-one a.pattern_position)
  Turned-IsInTurn mine a (err e) b t h = ground arith
  Turned-IsInTurn mine a panic b t h = ground arith

module _ {R C H D : Type 0} ⦃cipher_ops : Cipher C⦄ ⦃hash_ops : Hash H⦄ ⦃ops : Dh R D⦄ where
  Step-IsInTurn : {a b : HandshakeState R C H D} → Step a b → IsInTurn a → IsInTurn b
  Step-IsInTurn (writes hs payload out r after e _) h =
      Turned-IsInTurn true hs r after.0 (rw e at (write_message-Turned payload hs out)) h
  Step-IsInTurn (reads hs message out r after e _) h =
      Turned-IsInTurn false hs r after.0 (rw e at (read_message-Turned message hs out)) h

  -- Over any sequence of calls of `write_message` and `read_message` that do not panic, failed ones
  -- included, from a state where it holds: a side has the turn exactly at the messages of its own
  -- role, the even ones being the initiator's, and never moves past the last message.
  pub Reach-IsInTurn : {a b : HandshakeState R C H D} → IsInTurn a → Reach a b → IsInTurn b
  Reach-IsInTurn h here = h
  Reach-IsInTurn h (next r st) = Step-IsInTurn st (Reach-IsInTurn h r)
