-- ===== src/Example/Planet.antt =====
-- The transport phase of both programs of src/examples/simple.rs.
use screech.Base.{
  ℕ, zero, suc, ◌+◌, ◌≤◌, ◌<◌, ◌≡◌, refl, sym, ap, ◌∙◌, true, false, List, [], ◌∷◌, ◌++◌,
  append_assoc, append-nil, Bytes, length, take, drop, replicate, length-append, length-replicate,
  take-append_self, arith,
}
use screech.Constants.{taglen}
use screech.Outcome.{ok}
use screech.Types.{Cipher, u64_max}
use screech.Types.Laws.{CipherLaws}
use screech.CipherState.Seal.{IsReady, advanced}
use screech.TransportState.{TransportState, write_message}
use screech.TransportState.Messages.{
  sender, receiver, with_sender, with_receiver, write_message_ok, read_message_ok,
}
use screech.TransportState.Channel.{seals, length-seals}
use screech.TransportState.Links.{sender-with_sender, receiver-with_receiver}
use screech.TransportState.Session.{IsFresh}
use screech.Example.{Peer, planet, notify, hear, serve, recv}
use screech.Example.Turns.{tell_ok}
use screech.Example.Framing.{frame, frames, recv-frame}

module _ {C : Type 0} ⦃ops : Cipher C⦄ ⦃laws : CipherLaws C⦄ where
  -- The state of a client after a round.
  abbrev told : Peer (TransportState C) → Peer (TransportState C)
  told p =
      let c = sender p.noise in
      record p {
        noise = with_sender p.noise (advanced c);
        buf = laws.seal c.cipher c.n [] planet ++ drop 31 p.buf;
        outgoing = p.outgoing ++ frame (laws.seal c.cipher c.n [] planet);
      }

  notify_step :
      (rounds : ℕ) (p : Peer (TransportState C))
      → IsReady (sender p.noise)
      → p.noise.initiator ≡ true
      → 31 ≤ length p.buf
      → notify (suc rounds) p ≡ notify rounds (told p)
  unfolding notify
  notify_step rounds p ready role fits =
      let m = laws.seal (sender p.noise).cipher (sender p.noise).n [] planet in
      let size : length m ≡ 31 =
        laws.length-seal (sender p.noise).cipher (sender p.noise).n [] planet in
      let whole : length (m ++ drop 31 p.buf) ≡ 31 + length (drop 31 p.buf) =
        length-append m (drop 31 p.buf) ∙ ap (λ n. n + length (drop 31 p.buf)) size in
      let front : take 31 (m ++ drop 31 p.buf) ≡ m =
        ap (λ n. take n (m ++ drop 31 p.buf)) (sym size) ∙ take-append_self m (drop 31 p.buf) in
      let told =
        tell_ok (write_message planet) p
          (write_message_ok p.noise planet p.buf ready (ground (arith, role, fits)))
          (omega (arith, whole)) in
      ground (arith, told, front)

  told_fits : (p : Peer (TransportState C)) → 31 ≤ length (told p).buf
  told_fits p =
      let m = laws.seal (sender p.noise).cipher (sender p.noise).n [] planet in
      omega (
        arith,
        laws.length-seal (sender p.noise).cipher (sender p.noise).n [] planet,
        length-append m (drop 31 p.buf),
      )

  -- The client's rounds: what the stream holds behind what it held.
  notified :
      (rounds : ℕ) (p : Peer (TransportState C))
      → (sender p.noise).has_key ≡ true
      → (sender p.noise).n + rounds ≤ u64_max
      → p.noise.initiator ≡ true
      → 31 ≤ length p.buf
      → (q : Peer (TransportState C)) × (notify rounds p ≡ (ok tt, q))
        × (q.outgoing
            ≡ p.outgoing
              ++ frames
                  (seals (sender p.noise).cipher (sender p.noise).n (replicate rounds planet)))
  unfolding notify seals
  notified zero p keyed room role fits = (p, refl, sym (append-nil p.outgoing))
  notified (suc rounds) p keyed room role fits =
      let c = sender p.noise in
      let ready : IsReady (sender p.noise) = record { keyed = keyed; room = omega (arith, room) } in
      let step = notify_step rounds p ready role fits in
      let same = sender-with_sender p.noise (advanced c) in
      let (q, returned, sent) =
        notified rounds (told p) (rw same keyed) (rw same (omega (arith, room))) role
          (told_fits p) in
      (
        q,
        step ∙ returned,
        sent
            ∙ rw same (
                append_assoc p.outgoing (frame (laws.seal c.cipher c.n [] planet))
                  (frames (seals c.cipher (c.n + 1) (replicate rounds planet)))),
      )

  heard :
      (p : Peer (TransportState C))
      → IsReady (receiver p.noise)
      → p.noise.initiator ≡ false
      → 15 ≤ length p.buf
      → let c = receiver p.noise in
        hear (laws.seal c.cipher c.n [] planet) p ≡ (
          ok planet,
          record p {
            noise = with_receiver p.noise (advanced c);
            buf = planet ++ laws.behind c.cipher c.n [] planet p.buf;
          },
        )
  unfolding hear
  heard p ready role fits =
      let left = laws.behind (receiver p.noise).cipher (receiver p.noise).n [] planet p.buf in
      ground (
        arith,
        read_message_ok p.noise planet p.buf ready (ground (arith, role)) fits,
        length-append planet left,
        take-append_self planet left,
      )

  serve_step :
      (fuel : ℕ) (p : Peer (TransportState C)) (rest : Bytes)
      → IsReady (receiver p.noise)
      → p.noise.initiator ≡ false
      → 15 ≤ length p.buf
      → {after : List Bytes}
      → let c = receiver p.noise in
        (serve fuel (record p {
          noise = with_receiver p.noise (advanced c);
          buf = planet ++ laws.behind c.cipher c.n [] planet p.buf;
          incoming = rest;
        })).0
          ≡ ok after
        → (serve
            (suc fuel)
            (record p { incoming = frame (laws.seal c.cipher c.n [] planet) ++ rest })).0
          ≡ ok (planet ∷ after)
  unfolding serve
  serve_step fuel p rest ready role fits returned =
      let m = laws.seal (receiver p.noise).cipher (receiver p.noise).n [] planet in
      let size : length m ≡ 31 =
        laws.length-seal (receiver p.noise).cipher (receiver p.noise).n [] planet in
      ground (
        arith,
        recv-frame m rest (omega (arith, size)),
        heard (record p { incoming = rest }) ready role fits,
        returned,
      )

  served :
      (rounds fuel : ℕ) (p : Peer (TransportState C))
      → (receiver p.noise).has_key ≡ true
      → (receiver p.noise).n + rounds ≤ u64_max
      → p.noise.initiator ≡ false
      → 15 ≤ length p.buf
      → rounds < fuel
      → let c = receiver p.noise in
        (serve fuel
          (record p { incoming = frames (seals c.cipher c.n (replicate rounds planet)) })).0
        ≡ ok (replicate rounds planet)
  unfolding seals
  served zero zero p keyed room role fits enough = absurd (omega (arith, enough))
  served (suc rounds) zero p keyed room role fits enough = absurd (omega (arith, enough))
  served zero (suc fuel) p keyed room role fits enough = unfold serve recv in refl
  served (suc rounds) (suc fuel) p keyed room role fits enough =
      let c = receiver p.noise in
      let left = laws.behind c.cipher c.n [] planet p.buf in
      let same = receiver-with_receiver p.noise (advanced c) in
      serve_step fuel p (frames (seals c.cipher (c.n + 1) (replicate rounds planet)))
        (record { keyed = keyed; room = omega (arith, room) }) role fits
        (rw same at (
          served rounds fuel
            (record p { noise = with_receiver p.noise (advanced c); buf = planet ++ left })
            (rw same keyed) (rw same (omega (arith, room))) role
            (omega (arith, length-append planet left)) (omega (arith, enough))))

frames_long : (ms : List Bytes) → length ms ≤ length (frames ms)
frames_long [] = omega arith
frames_long (m ∷ ms) = omega (arith, length-append (frame m) (frames ms), frames_long ms)

module _ {C : Type 0} ⦃ops : Cipher C⦄ ⦃laws : CipherLaws C⦄ where
  -- Under the laws of the cipher: from two sides as they come out of one handshake, with buffers that
  -- hold the message, and nonces for all rounds: the client's loop returns after any number of
  -- rounds, and on what it has then added to the stream the server's loop returns when the stream
  -- ends, having printed the message once for each round.
  pub serve-notify :
      (rounds : ℕ) (p q : Peer (TransportState C))
      → IsFresh p.noise q.noise
      → p.noise.cipherstates.initiator.n + rounds ≤ u64_max
      → length planet + taglen ≤ length p.buf
      → length planet ≤ length q.buf
      → (p' : Peer (TransportState C)) × (added : Bytes) × (notify rounds p ≡ (ok tt, p'))
        × (p'.outgoing ≡ p.outgoing ++ added)
        × ((serve (suc (length added)) (record q { incoming = added })).0
            ≡ ok (replicate rounds planet))
  serve-notify rounds p q fresh room fits fits' =
      let same : sender p.noise ≡ receiver q.noise =
        ground (arith, fresh.first_role, fresh.second_role, fresh.same) in
      let first : sender p.noise ≡ p.noise.cipherstates.initiator =
        ground (arith, fresh.first_role) in
      let keyed : (sender p.noise).has_key ≡ true = rw first fresh.down_keyed in
      let left : (sender p.noise).n + rounds ≤ u64_max = rw first room in
      let (p', returned, sent) = notified rounds p keyed left fresh.first_role fits in
      let c = receiver q.noise in
      let ms = seals c.cipher c.n (replicate rounds planet) in
      let long : rounds < suc (length (frames ms)) = omega (
        arith,
        frames_long ms,
        length-seals c.cipher c.n (replicate rounds planet),
        length-replicate rounds planet,
      ) in
      let done =
        served rounds (suc (length (frames ms))) q (rw same at keyed) (rw same at left)
          fresh.second_role fits' long in
      (p', frames ms, returned, rw same at sent, done)
