-- ===== src/Example.antt =====
-- src/examples/simple.rs: the messages on a TCP stream, and what both programs do in the transport
-- phase. A stream is the list of the bytes that were written to it and not read yet; while it is
-- written to, it is open.
pub mod Framing
pub mod Turns
pub mod Programs
pub mod Handshake
pub mod Planet
pub mod Name
pub mod Opening
pub mod Configured
pub mod Session
use screech.Base.{
  ℕ, zero, suc, ◌+◌, ◌*◌, ◌/◌, ◌%◌, ◌^◌, List, [], ◌∷◌, ◌++◌, Bytes, codes, length, take, drop, leb,
  if◌then◌else◌,
}
use screech.Exec.{ExecOf, Exec, Call, Lens, pure, gets, lift, abort, on, unwrap, ◌>>=◌, ◌>>◌}
use screech.Outcome.{Result, ok, err, panic, slice_to}
use screech.Types.{Cipher}
use screech.TransportState.{TransportState, write_message, read_message}

-- `PARAMS`
abbrev pub params : Bytes
params = codes "Noise_XXpsk3_25519_ChaChaPoly_BLAKE2s"

-- `SECRET`
abbrev pub secret : Bytes
secret = codes "i don't care for fidget spinners"

pub data IoError : Type 0 where
  unexpected_eof : IoError

-- `Read::read_exact` into a buffer of `n` bytes, and `Write::write_all`
abbrev pub read_exact : ℕ → ExecOf IoError Bytes Bytes
read_exact n stream =
    if leb n (length stream) then (ok (take n stream), drop n stream) else (err unexpected_eof, [])

abbrev pub write_all : Bytes → Call Bytes (Unit {0})
write_all buf stream = (ok tt, stream ++ buf)

-- The size in a header of two bytes.
abbrev pub msg_len : Bytes → ℕ
msg_len (high ∷ low ∷ rest) = high * 2 ^ 8 + low
msg_len _ = 0

unfoldable pub recv : ExecOf IoError Bytes Bytes
recv = do msg_len_buf ← read_exact 2; read_exact (msg_len msg_len_buf)

unfoldable pub send : Bytes → Call Bytes (Unit {0})
send buf = do write_all (length buf / 2 ^ 8 % 2 ^ 8 ∷ length buf % 2 ^ 8 ∷ []); write_all buf

-- What a program works on: `noise`, `buf`, and both directions of `stream`.
pub record Peer (N : Type 0) : Type 0 where
  pub noise : N
  pub buf : Bytes
  pub incoming : Bytes
  pub outgoing : Bytes

abbrev pub planet : Bytes
planet = codes "HACK THE PLANET"

module _ {N : Type 0} where
  abbrev noise_and_buf : Lens (Peer N) (N × Bytes)
  noise_and_buf = record {
    get = λ p. (p.noise, p.buf);
    put = λ t p. record p { noise = t.0; buf = t.1 };
  }

  abbrev pub stream_in : Lens (Peer N) Bytes
  stream_in = record { get = λ p. p.incoming; put = λ s p. record p { incoming = s } }

  abbrev stream_out : Lens (Peer N) Bytes
  stream_out = record { get = λ p. p.outgoing; put = λ s p. record p { outgoing = s } }

  -- `let len = noise.write_message(…, &mut buf).unwrap(); send(&mut stream, &buf[..len]);`
  unfoldable pub tell : Exec (N × Bytes) ℕ → Call (Peer N) (Unit {0})
  tell write = do
    len ← on noise_and_buf (unwrap write)
    self ← gets (λ p. p)
    msg ← lift (slice_to len self.buf)
    on stream_out (send msg)

  -- `noise.read_message(&recv(&mut stream).unwrap(), &mut buf).unwrap();`
  unfoldable pub listen : (Bytes → Exec (N × Bytes) ℕ) → Call (Peer N) (Unit {0})
  listen read = do
    msg ← on stream_in (unwrap recv)
    _ ← on noise_and_buf (unwrap (read msg))
    pure tt

module _ {C : Type 0} ⦃ops : Cipher C⦄ where
  -- The loop of `run_client`, of `rounds` rounds where the source has ten.
  unfoldable pub notify : ℕ → Call (Peer (TransportState C)) (Unit {0})
  notify zero = pure tt
  notify (suc rounds) = do tell (write_message planet); notify rounds

  -- A round of the loop of `run_server` on a message from `recv`: the bytes that it prints.
  unfoldable pub hear : Bytes → Call (Peer (TransportState C)) Bytes
  hear msg = do
    len ← on noise_and_buf (unwrap (read_message msg))
    self ← gets (λ p. p)
    lift (slice_to len self.buf)

  -- The loop of `run_server`, until `recv` fails: what it prints, in order. Without fuel it panics.
  unfoldable pub serve : ℕ → Call (Peer (TransportState C)) (List Bytes)
  serve zero self = abort self
  serve (suc fuel) self =
      let (received, rest) = recv self.incoming in
      elim received [
        | ok msg ↦
            (do said ← hear msg; later ← serve fuel; pure (said ∷ later))
              (record self { incoming = rest })
        | err _ ↦ (ok [], record self { incoming = rest })
        | panic ↦ (panic, record self { incoming = rest })
      ]
