-- ===== src/Frame/Layout.antt =====
-- What `frame` leaves in the buffer from the write offset on: the bytes that go to the broker.
use true_mqtt_cpp.Base.{
  ℕ, zero, suc, ◌+◌, ◌-◌, ◌*◌, ◌/◌, ◌%◌, ◌^◌, ◌≤◌, ◌<◌, ◌≡◌, refl, List, [], ◌∷◌, ◌++◌, ltb, length,
  drop, drop-append, length_zero, set, ap, sym, length-append, Bool-cases, inl, inr, bit_or, arith,
}
use true_mqtt_cpp.Base.Bits.{bit_or_high}
use true_mqtt_cpp.Packet.{Packet, code}
use native.Mathlib.Nat.{pow-suc}
use native.Mathlib.Decide.{dec_lt}
use mathlib.Core.List.{append_assoc}
use true_mqtt_cpp.Frame.{length_byte, write_length, header_offset, frame}
use true_mqtt_cpp.Frame.Length.{
  length_bytes, set_top_bit, length-length_bytes, length_one, length_two, length_three, length_four,
  length_five,
}

-- The bytes of a framed packet on the wire.
abbrev pub wire : Packet → List ℕ
wire p = drop p.write_offset p.buffer

abbrev pub header_byte : Packet → ℕ
header_byte p = code p.packet_type * 16 + p.flags

code-lt : (p : Packet) → code p.packet_type < 16
unfolding code
code-lt p = ground arith

first_byte :
    (p : Packet)
    → p.flags < 16
    → bit_or (code p.packet_type * 2 ^ 4) p.flags % 2 ^ 8 ≡ header_byte p
first_byte p h = omega (arith, bit_or_high 4 (code p.packet_type) p.flags h, code-lt p)

-- The buffer of a packet to send: five bytes for the header, and the body.
abbrev pub HasBody : Packet → List ℕ → Type 0
HasBody p body = p.buffer ≡ 0 ∷ 0 ∷ 0 ∷ 0 ∷ 0 ∷ body

set-append :
    (front : List ℕ) (o v : ℕ) (xs : List ℕ)
    → set (front ++ (o ∷ xs)) (length front) v ≡ (front ++ (v ∷ [])) ++ xs
set-append [] o v xs = refl
set-append (b ∷ front) o v xs = ap (◌∷◌ b) (set-append front o v xs)

last_byte : (n : ℕ) → n < 128 → length_byte n ≡ n
last_byte n h = ground arith

inner_byte : (n : ℕ) → 128 ≤ n → length_byte n ≡ n % 128 + 128
inner_byte n h = ground (arith, set_top_bit n)

write_length_last :
    (fuel n offset : ℕ) (xs : List ℕ)
    → n < 128
    → write_length (suc fuel) n offset xs ≡ set xs offset (length_byte n)
unfolding write_length
write_length_last fuel n offset xs h = ground arith

write_length_inner :
    (fuel n offset : ℕ) (xs : List ℕ)
    → 128 ≤ n
    → write_length (suc fuel) n offset xs
      ≡ write_length fuel (n / 128) (offset + 1) (set xs offset (length_byte n))
unfolding write_length
write_length_inner fuel n offset xs h = ground arith

-- The loop writes the encoding of the length over as many bytes from the offset on.
write_length-length_bytes :
    (k fuel n : ℕ) (front old rest : List ℕ)
    → n < 128 ^ suc k
    → k < fuel
    → length old ≡ length (length_bytes k n)
    → write_length fuel n (length front) (front ++ (old ++ rest))
      ≡ front ++ (length_bytes k n ++ rest)
unfolding length_bytes
write_length-length_bytes k zero n front old rest h f l = absurd (omega arith)
write_length-length_bytes zero (suc fuel) n front [] rest h f l = absurd (omega (arith, l))
write_length-length_bytes zero (suc fuel) n front (o ∷ []) rest h f l =
    rw
      (
        write_length_last fuel n (length front) (front ++ (o ∷ rest)) (omega arith),
        set-append front o (length_byte n) rest,
        last_byte n (omega arith),
        append_assoc,
      )
      refl
write_length-length_bytes zero (suc fuel) n front (o ∷ q ∷ old) rest h f l =
    absurd (omega (arith, l))
write_length-length_bytes (suc k) (suc fuel) n front [] rest h f l =
    absurd (omega (arith, l, length-length_bytes (suc k) n))
write_length-length_bytes (suc k) (suc fuel) n front (o ∷ old) rest h f l =
    elim (Bool-cases (ltb n 128)) [
      | inl small ↦
          let none_left : old ≡ [] = length_zero old (ground (arith, l)) in
          rw
            (
              write_length_last fuel n (length front) (front ++ (o ∷ (old ++ rest))) (ground arith),
              set-append front o (length_byte n) (old ++ rest),
              last_byte n (ground arith),
              append_assoc,
              small,
              none_left,
            )
            refl
      | inr big ↦
          let front' : List ℕ = front ++ (length_byte n ∷ []) in
          let at_end : length front + 1 ≡ length front' =
            sym (length-append front (length_byte n ∷ [])) in
          let ih =
            write_length-length_bytes k fuel (n / 128) front' old rest
              (omega (arith, pow-suc 128 (suc k))) (omega arith) (ground (arith, l)) in
          rw
            (
              write_length_inner fuel n (length front) (front ++ (o ∷ (old ++ rest)))
                  (ground arith),
              set-append front o (length_byte n) (old ++ rest),
              at_end,
              ih,
              inner_byte n (ground arith),
              append_assoc,
              big,
            )
            refl
    ]

-- The header, the length and what is left of the body, when the header starts behind `front` and the
-- length takes the place of `old`.
frame_at :
    (p : Packet) (n k : ℕ) (front old rest : List ℕ) (o : ℕ)
    → (length p.buffer + 2 ^ 64 - 5) % 2 ^ 64 ≡ n
    → header_offset n ≡ length front
    → p.flags < 16
    → p.buffer ≡ front ++ (o ∷ (old ++ rest))
    → n < 128 ^ suc k
    → k < 10
    → length old ≡ length (length_bytes k n)
    → wire (frame p) ≡ header_byte p ∷ (length_bytes k n ++ rest)
unfolding frame
frame_at p n k front old rest o en eo hf eb hn hk hl =
    let front' : List ℕ = front ++ (header_byte p ∷ []) in
    let at_end : length front + 1 ≡ length front' =
      sym (length-append front (header_byte p ∷ [])) in
    rw
      (
        en,
        eo,
        first_byte p hf,
        eb,
        set-append front o (header_byte p) (old ++ rest),
        at_end,
        write_length-length_bytes k 10 n front' old rest hn hk hl,
        append_assoc front (header_byte p ∷ []) (length_bytes k n ++ rest),
      )
      (drop-append front (header_byte p ∷ (length_bytes k n ++ rest)))

total_length :
    (p : Packet) (body : List ℕ)
    → HasBody p body
    → length body < 2 ^ 64
    → (length p.buffer + 2 ^ 64 - 5) % 2 ^ 64 ≡ length body
total_length p body b h = omega (arith, ap length b)

-- The bytes that go out for a packet with a body below 2 ^ 28 bytes, with flags of four bits: the
-- type and the flags in one byte, the encoded length of the body, and the body.
pub frame-wire :
    (p : Packet) (body : List ℕ)
    → HasBody p body
    → p.flags < 16
    → length body < 2 ^ 28
    → wire (frame p) ≡ header_byte p ∷ (length_bytes 3 (length body) ++ body)
unfolding header_offset
frame-wire p body b hf h =
    let n = length body in
    let e = total_length p body b (omega arith) in
    let at =
      λ (front : List ℕ) (old : List ℕ) (eo : header_offset n ≡ length front)
          (eb : p.buffer ≡ front ++ (0 ∷ (old ++ body)))
          (el : length old ≡ length (length_bytes 3 n)).
        frame_at p n 3 front old body 0 e eo hf eb (omega arith) (omega arith) el in
    elim (dec_lt n 128) [
      | yes one ↦ at (0 ∷ 0 ∷ 0 ∷ []) (0 ∷ []) (ground arith) b (length_one 3 n one)
      | no not_one ↦ elim (dec_lt n 16384) [
        | yes two ↦ at (0 ∷ 0 ∷ []) (0 ∷ 0 ∷ []) (ground arith) b (length_two 2 n (omega arith) two)
        | no not_two ↦ elim (dec_lt n 2097152) [
          | yes three ↦
              at (0 ∷ []) (0 ∷ 0 ∷ 0 ∷ []) (ground arith) b (length_three 1 n (omega arith) three)
          | no not_three ↦
              at [] (0 ∷ 0 ∷ 0 ∷ 0 ∷ []) (ground arith) b (length_four 0 n (omega arith) h)
        ]
      ]
    ]

-- The bytes that go out for a packet with a body of 2 ^ 28 bytes or more and below 2 ^ 35, with flags of
-- four bits: the type and the flags, the length in five bytes, and the body without its first byte.
pub frame-wire_oversize :
    (p : Packet) (b : ℕ) (body : List ℕ)
    → HasBody p (b ∷ body)
    → p.flags < 16
    → 2 ^ 28 ≤ length (b ∷ body)
    → length (b ∷ body) < 2 ^ 35
    → wire (frame p) ≡ header_byte p ∷ (length_bytes 4 (length (b ∷ body)) ++ body)
unfolding header_offset
frame-wire_oversize p b body eb hf lo hi =
    frame_at p (length (b ∷ body)) 4 [] (0 ∷ 0 ∷ 0 ∷ 0 ∷ b ∷ []) body 0
      (total_length p (b ∷ body) eb (omega arith)) (ground arith) hf eb (omega arith) (omega arith)
      (length_five (length (b ∷ body)) lo hi)
