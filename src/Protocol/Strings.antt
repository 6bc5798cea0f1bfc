-- ===== src/Protocol/Strings.antt =====
-- Lengths, strings and framed packets (src/Packet.cpp), decoded as a broker decodes them.
use true_mqtt_cpp.Base.{
  ℕ, zero, suc, ◌+◌, ◌-◌, ◌*◌, ◌/◌, ◌%◌, ◌^◌, ◌<◌, ◌≡◌, refl, false, some, List, [], ◌∷◌, ◌++◌,
  Text, ltb, length, arith, take_short, drop_short, Bool-cases, inl, inr, ap, length-append,
}
use native.Mathlib.Nat.{pow-suc}
use mathlib.Core.List.{append_assoc, append-nil}
use true_mqtt_cpp.Packet.{Packet}
use true_mqtt_cpp.Packet.Reads.{split_string}
use true_mqtt_cpp.Packet.RoundTrip.{take_all, drop_all}
use true_mqtt_cpp.Frame.{frame}
use true_mqtt_cpp.Frame.Layout.{wire, header_byte, HasBody, frame-wire}
use true_mqtt_cpp.Frame.Length.{length_bytes}
use true_mqtt_cpp.Protocol.{split_length, with_rest, decode, decode_body, Request}

split_length-length_bytes :
    (k most n : ℕ) (rest : List ℕ)
    → n < 128 ^ suc k
    → k < most
    → split_length most (length_bytes k n ++ rest) ≡ some (n, rest)
unfolding split_length length_bytes
split_length-length_bytes k zero n rest hn hk = absurd (omega arith)
split_length-length_bytes zero (suc m) n rest hn hk = ground arith
split_length-length_bytes (suc k) (suc m) n rest hn hk = elim (Bool-cases (ltb n 128)) [
  | inl small ↦ rw (small, small) refl
  | inr big ↦
      let more : ltb (n % 128 + 128) 128 ≡ false = ground arith in
      let whole : n % 128 + 128 - 128 + 128 * (n / 128) ≡ n = omega arith in
      rw
        (
          big,
          more,
          split_length-length_bytes k m (n / 128) rest (omega (arith, pow-suc 128 (suc k)))
              (omega arith),
          whole,
        )
        refl
]

-- A string with its length in front, as the client writes it.
abbrev pub string_bytes : Text → List ℕ
string_bytes s = length s % 2 ^ 16 / 2 ^ 8 % 2 ^ 8 ∷ length s % 2 ^ 16 % 2 ^ 8 ∷ s

pub split_string-string_bytes :
    (s : Text) (rest : List ℕ)
    → length s < 2 ^ 16
    → split_string (string_bytes s ++ rest) ≡ some (s, rest)
split_string-string_bytes s rest h =
    let sized : length s % 2 ^ 16 / 2 ^ 8 % 2 ^ 8 * 256 + length s % 2 ^ 16 % 2 ^ 8 ≡ length s =
      omega arith in
    let fits : ltb (length (s ++ rest)) (length s) ≡ false = ground (arith, length-append s rest) in
    rw
      (
        sized,
        fits,
        take_short (length s) s rest (omega arith),
        drop_short (length s) s rest (omega arith),
        take_all s,
        drop_all s,
      )
      refl

pub split_string_alone :
    (s : Text) → length s < 2 ^ 16 → split_string (string_bytes s) ≡ some (s, [])
split_string_alone s h = rw append-nil at (split_string-string_bytes s [] h)

-- A framed packet is taken off the socket whole.
pub decode-frame :
    (p : Packet) (body rest : List ℕ) (request : Request)
    → HasBody p body
    → p.flags < 16
    → length body < 2 ^ 28
    → decode_body (header_byte p) body ≡ some request
    → decode (wire (frame p) ++ rest) ≡ some (request, rest)
unfolding decode
decode-frame p body rest request hb hf hn e =
    let n = length body in
    let fits : ltb (length (body ++ rest)) n ≡ false = ground (arith, length-append body rest) in
    rw
      (
        frame-wire p body hb hf hn,
        append_assoc (length_bytes 3 n) body rest,
        split_length-length_bytes 3 4 n (body ++ rest) (omega arith) (omega arith),
        fits,
        take_short n body rest (omega arith),
        drop_short n body rest (omega arith),
        take_all body,
        drop_all body,
      )
      (ap (with_rest rest) e)
