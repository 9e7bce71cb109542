-- ===== src/Example/Turns.antt =====
-- A message from one program of src/examples/simple.rs to the other: the calls that both make.
use screech.Base.{ℕ, ◌^◌, ◌≤◌, ◌<◌, ◌≡◌, ◌++◌, Bytes, length, take, arith}
use screech.Exec.{Exec}
use screech.Outcome.{ok}
use screech.Example.{Peer, tell, listen}
use screech.Example.Framing.{frame, send-frame, recv-frame}

module _ {N : Type 0} where
  pub tell_ok :
      (write : Exec (N × Bytes) ℕ) (p : Peer N) {n : ℕ} {after : N} {text : Bytes}
      → write (p.noise, p.buf) ≡ (ok n, (after, text))
      → n ≤ length text
      → tell write p ≡ (
        ok tt,
        record p { noise = after; buf = text; outgoing = p.outgoing ++ frame (take n text) },
      )
  unfolding tell
  tell_ok write p {n} {after} {text} wrote room =
      ground (arith, wrote, room, send-frame (take n text) p.outgoing)

  pub listen_ok :
      (read : Bytes → Exec (N × Bytes) ℕ) (p : Peer N) (m rest : Bytes) {n : ℕ} {after : N}
      {text : Bytes}
      → p.incoming ≡ frame m ++ rest
      → length m < 2 ^ 16
      → read m (p.noise, p.buf) ≡ (ok n, (after, text))
      → listen read p ≡ (ok tt, record p { noise = after; buf = text; incoming = rest })
  unfolding listen
  listen_ok read p m rest front short got =
      let received = recv-frame m rest short in ground (arith, front, received, got)
