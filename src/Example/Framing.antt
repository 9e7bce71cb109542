-- ===== src/Example/Framing.antt =====
-- `send` and `recv` of src/examples/simple.rs.
use screech.Base.{
  ℕ, suc, ◌+◌, ◌*◌, ◌/◌, ◌%◌, ◌^◌, ◌<◌, ◌≡◌, refl, ap, ◌∙◌, List, [], ◌∷◌, ◌++◌, append_assoc,
  Bytes, length, length-append, take-append_self, drop-append_self, arith,
}
use native.Mathlib.Nat.{div-add-mod}
use screech.Outcome.{ok, err}
use screech.Example.{unexpected_eof, recv, send}

-- A message behind its size.
abbrev pub frame : Bytes → Bytes
frame buf = length buf / 2 ^ 8 % 2 ^ 8 ∷ length buf % 2 ^ 8 ∷ buf

abbrev pub frames : List Bytes → Bytes
frames [] = []
frames (m ∷ ms) = frame m ++ frames ms

pub send-frame : (buf stream : Bytes) → send buf stream ≡ (ok tt, stream ++ frame buf)
unfolding send
send-frame buf stream =
    ap (λ s. (ok tt, s))
      (append_assoc stream (length buf / 2 ^ 8 % 2 ^ 8 ∷ length buf % 2 ^ 8 ∷ []) buf)

size : (n : ℕ) → n < 2 ^ 16 → n / 2 ^ 8 % 2 ^ 8 * 2 ^ 8 + n % 2 ^ 8 ≡ n
size n h = omega (arith, h, div-add-mod n 256)

pub recv-frame :
    (buf rest : Bytes) → length buf < 2 ^ 16 → recv (frame buf ++ rest) ≡ (ok buf, rest)
unfolding recv
recv-frame buf rest h = ground (
  arith,
  size (length buf) h,
  length-append buf rest,
  take-append_self buf rest,
  drop-append_self buf rest,
)

-- What `send` writes for a message of less than 2^16 bytes, `recv` reads back, and it leaves what
-- follows.
pub recv-send :
    (buf rest : Bytes) → length buf < 2 ^ 16 → recv ((send buf []).1 ++ rest) ≡ (ok buf, rest)
recv-send buf rest h = rw (send-frame buf []) (recv-frame buf rest h)

recv_eof :
    (high low : ℕ) (front : Bytes)
    → length front < high * 2 ^ 8 + low
    → (recv (high ∷ low ∷ front)).0 ≡ err unexpected_eof
unfolding recv
recv_eof high low front short = ground (arith, short)

-- `recv` fails on every proper prefix of what `send` writes for a message of less than 2^16 bytes.
pub recv_truncated :
    (buf front back : Bytes) (x : ℕ)
    → length buf < 2 ^ 16
    → (send buf []).1 ≡ front ++ x ∷ back
    → (recv front).0 ≡ err unexpected_eof
unfolding recv
recv_truncated buf [] back x h e = refl
recv_truncated buf (a ∷ []) back x h e = refl
recv_truncated buf (a ∷ b ∷ front) back x h e =
    let whole : frame buf ≡ (a ∷ b ∷ front) ++ x ∷ back = cc (send-frame buf [], e) in
    let high : length buf / 2 ^ 8 % 2 ^ 8 ≡ a = cc whole in
    let low : length buf % 2 ^ 8 ≡ b = cc whole in
    let text : buf ≡ front ++ x ∷ back = cc whole in
    let split : length buf ≡ length front + suc (length back) =
      ap length text ∙ length-append front (x ∷ back) in
    recv_eof a b front (omega (arith, size (length buf) h, high, low, split))
