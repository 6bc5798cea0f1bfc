-- ===== src/Packet/Reads.antt =====
-- The read primitives against a reading of the unread bytes as a list.
use true_mqtt_cpp.Base.{
  ℕ, ◌+◌, ◌-◌, ◌*◌, ◌%◌, ◌^◌, ◌≤◌, ◌<◌, ◌≡◌, refl, sym, ap, ◌∙◌, Option, none, some, List, [], ◌∷◌,
  Text, ltb, if◌then◌else◌, length, take, drop, All, arith, bit_or, inl, inr, ◌⊎◌, length-drop,
  get_or-drop, drop-suc, drop-drop, drop-eq-cons-lt, Bool-cases,
}
use native.Mathlib.Nat.{add_assoc}
use native.Mathlib.Numerals.{add-one}
use true_mqtt_cpp.Base.Bits.{bit_or_high}
use true_mqtt_cpp.Packet.{Packet, read_uint8, read_uint16, read_bytes, read_string}

abbrev pub IsByte : ℕ → Type 0
IsByte b = b < 256

-- What the reads have not consumed.
abbrev pub unread : Packet → List ℕ
unread p = drop p.read_offset p.buffer

-- The packet after a read of n bytes.
abbrev pub advance : ℕ → Packet → Packet
advance n p = record p { read_offset = p.read_offset + n }

List-cases {ℓ} : {A : Type ℓ} (xs : List A) → (xs ≡ []) ⊎ ((x : A) × (ys : List A) × (xs ≡ x ∷ ys))
List-cases [] = inl refl
List-cases (x ∷ xs) = inr (x, xs, refl)

length-unread : (p : Packet) → length (unread p) ≡ length p.buffer - p.read_offset
length-unread p = length-drop p.read_offset p.buffer

drop_one : (n : ℕ) (xs : List ℕ) {y : ℕ} {ys : List ℕ} → drop n xs ≡ y ∷ ys → drop (n + 1) xs ≡ ys
drop_one n xs h = rw (add-one n) (drop-suc n xs h)

pub read_uint8-cons :
    (p : Packet) (b : ℕ) (rest : List ℕ)
    → unread p ≡ b ∷ rest
    → (read_uint8 p ≡ (advance 1 p, some b)) × (unread (advance 1 p) ≡ rest)
unfolding read_uint8
read_uint8-cons p b rest h = (
  ground (arith, drop-eq-cons-lt p.read_offset p.buffer h, get_or-drop p.read_offset p.buffer 0 h),
  drop_one p.read_offset p.buffer h,
)

pub read_uint8-nil : (p : Packet) → unread p ≡ [] → read_uint8 p ≡ (p, none)
unfolding read_uint8
read_uint8-nil p h = ground (arith, length-unread p, ap length h)

join_bytes : (hi lo : ℕ) → IsByte hi → IsByte lo → bit_or (hi * 2 ^ 8 % 2 ^ 16) lo ≡ hi * 256 + lo
join_bytes hi lo bh bl =
    let e : hi * 2 ^ 8 % 2 ^ 16 ≡ hi * 2 ^ 8 = omega arith in rw e (bit_or_high 8 hi lo bl)

pub read_uint16-cons :
    (p : Packet) (hi lo : ℕ) (rest : List ℕ)
    → IsByte hi
    → IsByte lo
    → unread p ≡ hi ∷ lo ∷ rest
    → (read_uint16 p ≡ (advance 2 p, some (hi * 256 + lo))) × (unread (advance 2 p) ≡ rest)
unfolding read_uint16
read_uint16-cons p hi lo rest bh bl h =
    let second = drop_one p.read_offset p.buffer h in
    let third = drop_one (p.read_offset + 1) p.buffer second in
    (
      ground (
        arith,
        drop-eq-cons-lt (p.read_offset + 1) p.buffer second,
        get_or-drop p.read_offset p.buffer 0 h,
        get_or-drop (p.read_offset + 1) p.buffer 0 second,
        join_bytes hi lo bh bl,
      ),
      rw add_assoc at third,
    )

pub read_uint16-short : (p : Packet) → length (unread p) < 2 → read_uint16 p ≡ (p, none)
unfolding read_uint16
read_uint16-short p h = ground (arith, length-unread p)

-- The bytes of a packet read as the protocol describes them, on a plain list.
abbrev pub split_string : List ℕ → Option (Text × List ℕ)
split_string [] = none
split_string (hi ∷ []) = none
split_string (hi ∷ lo ∷ rest) =
    if ltb (length rest) (hi * 256 + lo)
    then none
    else some (take (hi * 256 + lo) rest, drop (hi * 256 + lo) rest)

-- A read and its description agree: both fail, or the same value comes out, the same bytes are left
-- unread, and the buffer and the read offset are still those of a packet.
abbrev pub Agrees : {A : Type 0} → Packet → Packet × Option A → Option (A × List ℕ) → Type 0
Agrees p r none = r.1 ≡ none
Agrees p r (some (a, rest)) =
    (r.1 ≡ some a)
    × (unread r.0 ≡ rest)
    × (r.0.buffer ≡ p.buffer)
    × (r.0.read_offset ≤ length p.buffer)

read_bytes-Agrees :
    (p : Packet) (n : ℕ) (rest : List ℕ)
    → unread p ≡ rest
    → p.read_offset ≤ length p.buffer
    → Agrees p
        (read_bytes (p, some n))
        (if ltb (length rest) n then none else some (take n rest, drop n rest))
unfolding read_bytes
read_bytes-Agrees p n rest h v =
    let e : ltb (length p.buffer) (p.read_offset + n) ≡ ltb (length rest) n =
      ground (arith, length-unread p, ap length h) in
    elim (Bool-cases (ltb (length rest) n)) [
      | inl short ↦ rw (e, short) refl
      | inr fits ↦
          rw (e, fits)
            (
              ap (λ (xs : List ℕ). some (take n xs)) h,
              sym (drop-drop p.read_offset n p.buffer) ∙ ap (drop n) h,
              refl,
              ground (arith, length-unread p, ap length h, e),
            )
    ]

pub read_bytes_fits :
    (p : Packet) (n : ℕ)
    → p.read_offset ≤ length p.buffer
    → n ≤ length (unread p)
    → read_bytes (p, some n) ≡ (advance n p, some (take n (unread p)))
unfolding read_bytes
read_bytes_fits p n v h = ground (arith, length-unread p)

read_string_at :
    (p : Packet) (bytes : List ℕ)
    → unread p ≡ bytes
    → All IsByte bytes
    → p.read_offset ≤ length p.buffer
    → Agrees p (read_string p) (split_string bytes)
unfolding read_string
read_string_at p [] h b v = rw (read_uint16-short p (omega (arith, ap length h))) refl
read_string_at p (hi ∷ []) h b v = rw (read_uint16-short p (omega (arith, ap length h))) refl
read_string_at p (hi ∷ lo ∷ rest) h b v =
    let r = read_uint16-cons p hi lo rest b.0 b.1.0 h in
    rw r.0 (
      read_bytes-Agrees (advance 2 p) (hi * 256 + lo) rest r.1
        (omega (arith, length-unread p, ap length h)))

-- `read_string` on a packet of bytes whose read offset is within the buffer does what the protocol's
-- reading of a string does on the unread bytes: it fails where that fails, and otherwise returns the
-- same string, leaves the same bytes unread, keeps the buffer and stays within it.
pub read_string-Agrees :
    (p : Packet)
    → All IsByte (unread p)
    → p.read_offset ≤ length p.buffer
    → Agrees p (read_string p) (split_string (unread p))
read_string-Agrees p = read_string_at p (unread p) refl
