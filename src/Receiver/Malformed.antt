-- ===== src/Receiver/Malformed.antt =====
-- What `recvLoop` of src/Packet.cpp closes the connection for before it reads a body.
use true_mqtt_cpp.Base.{
  ℕ, zero, suc, ◌*◌, ◌/◌, ◌%◌, ◌^◌, ◌≤◌, ◌<◌, ◌≡◌, ◌≢◌, refl, ◌⊎◌, false, none, some, List, [], ◌∷◌,
  ◌++◌, length, ◌==◌, arith, inl, inr, bit_or, Option-cases, All,
}
use true_mqtt_cpp.Base.Bits.{shr, low_bits}
use true_mqtt_cpp.Connection.{Connection}
use true_mqtt_cpp.Client.{Impl}
use true_mqtt_cpp.Receiver.{Poll, done, packet_type_of, read_length, recv_loop}
use true_mqtt_cpp.Receiver.Socket.{AllSteady, world, recv_byte_steady}

-- A byte of a length that says that another one follows.
abbrev pub Continues : ℕ → Type 0
Continues b = (128 ≤ b) × (b < 256)

-- A first byte with the type 0 or 15, or a byte with another type and four bytes of a length that all
-- say that the length goes on.
pub data IsMalformed : List ℕ → Type 0 where
  no_type : (h : ℕ) → (h < 16) ⊎ (240 ≤ h) → h < 256 → IsMalformed (h ∷ [])
  no_end :
      (h : ℕ) (bytes : List ℕ)
      → 16 ≤ h
      → h < 240
      → length bytes ≡ 4
      → All Continues bytes
      → IsMalformed (h ∷ bytes)

no_packet_type : (h : ℕ) → (h < 16) ⊎ (240 ≤ h) → h < 256 → packet_type_of (shr h 4) ≡ none
unfolding packet_type_of
no_packet_type h (inl low) b = let e : h / 2 ^ 4 ≡ 0 = omega arith in rw e refl
no_packet_type h (inr high) b = let e : h / 2 ^ 4 ≡ 15 = omega arith in rw e refl

some_packet_type : (h : ℕ) → 16 ≤ h → h < 240 → packet_type_of (shr h 4) ≢ none
unfolding packet_type_of
some_packet_type h lo hi e = ground arith

module _ (c : Connection) (s : Impl) (linked : s.connection ≡ some c) where
  length_goes_on :
      (p : Poll) (ps : List Poll) (rounds i acc b : ℕ) (rest : List ℕ)
      → Continues b
      → AllSteady c s (p ∷ ps)
      → read_length (suc rounds) i acc (world s (b ∷ rest) (p ∷ ps))
        ≡ read_length rounds (suc i) (bit_or acc (low_bits b 7 * 2 ^ (7 * i))) (world s rest ps)
  unfolding read_length
  length_goes_on p ps rounds i acc b rest (lo, hi) st =
      let more : (shr b 7 % 2 == 0) ≡ false = ground arith in
      rw (recv_byte_steady c s linked p ps b rest st.0, more) refl

  length_has_no_end :
      (rounds i acc : ℕ) (bytes rest : List ℕ) (qs ps : List Poll)
      → length bytes ≡ rounds
      → length qs ≡ rounds
      → All Continues bytes
      → AllSteady c s (qs ++ ps)
      → read_length rounds i acc (world s (bytes ++ rest) (qs ++ ps)) ≡ done none (world s rest ps)
  unfolding read_length
  length_has_no_end zero i acc [] rest [] ps hb hq g st = refl
  length_has_no_end zero i acc (b ∷ bytes) rest qs ps hb hq g st = absurd (omega (arith, hb))
  length_has_no_end zero i acc [] rest (q ∷ qs) ps hb hq g st = absurd (omega (arith, hq))
  length_has_no_end (suc r) i acc [] rest qs ps hb hq g st = absurd (omega (arith, hb))
  length_has_no_end (suc r) i acc (b ∷ bytes) rest [] ps hb hq g st = absurd (omega (arith, hq))
  length_has_no_end (suc r) i acc (b ∷ bytes) rest (q ∷ qs) ps hb hq (g, gs) st =
      rw (length_goes_on q (qs ++ ps) r i acc b (bytes ++ rest) g st) (
        length_has_no_end r (suc i) (bit_or acc (low_bits b 7 * 2 ^ (7 * i))) bytes rest qs ps
          (omega (arith, hb)) (omega (arith, hq)) gs st.1)

-- On a client with a connection, a first byte with the type 0 or 15 gives false behind that byte, and
-- with another type a length of which four bytes say that it goes on gives false behind those five
-- bytes: the client stays as it was, and no callback is called. There is a steady poll for each byte.
pub recv_loop-malformed :
    (c : Connection) (s : Impl) (now : ℕ) (bytes rest : List ℕ) (qs ps : List Poll)
    → s.connection ≡ some c
    → IsMalformed bytes
    → length qs ≡ length bytes
    → AllSteady c s (qs ++ ps)
    → recv_loop now (world s (bytes ++ rest) (qs ++ ps)) ≡ done false (world s rest ps)
unfolding recv_loop
recv_loop-malformed c s now _ rest [] ps linked (no_type h out b) hq st = absurd (omega (arith, hq))
recv_loop-malformed c s now _ rest (q ∷ []) ps linked (no_type h out b) hq st =
    rw (recv_byte_steady c s linked q ps h rest st.0, no_packet_type h out b) refl
recv_loop-malformed c s now _ rest (q ∷ r ∷ qs) ps linked (no_type h out b) hq st =
    absurd (omega (arith, hq))
recv_loop-malformed c s now _ rest [] ps linked (no_end h bytes lo hi four g) hq st =
    absurd (omega (arith, hq))
recv_loop-malformed c s now _ rest (q ∷ qs) ps linked (no_end h bytes lo hi four g) hq st =
    elim (Option-cases (packet_type_of (shr h 4))) [
      | inl e ↦ absurd (some_packet_type h lo hi e)
      | inr (t, e) ↦
          rw
            (
              recv_byte_steady c s linked q (qs ++ ps) h (bytes ++ rest) st.0,
              e,
              length_has_no_end c s linked 4 0 0 bytes rest qs ps four (omega (arith, hq, four)) g
                  st.1,
            )
            refl
    ]
