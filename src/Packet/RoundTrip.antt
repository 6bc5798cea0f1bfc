-- ===== src/Packet/RoundTrip.antt =====
-- What the write primitives put into a buffer, read back.
use true_mqtt_cpp.Base.{
  ℕ, zero, suc, ◌+◌, ◌*◌, ◌/◌, ◌%◌, ◌^◌, ◌≤◌, ◌<◌, ◌≡◌, refl, sym, ap, ◌∙◌, some, List, [], ◌∷◌,
  ◌++◌, Text, length, take, drop, arith, length-append, drop-append, drop-drop, take_short,
  drop_short, ◌≢◌,
}
use mathlib.Core.Option.{some-injective}
use mathlib.Core.List.{append_assoc}
use true_mqtt_cpp.Packet.{Packet, write_uint16, write_string, read_uint16, read_string}
use true_mqtt_cpp.Packet.Reads.{unread, advance, read_uint16-cons, read_bytes_fits}

pub drop_all : (s : Text) → drop (length s) s ≡ []
drop_all [] = refl
drop_all (b ∷ s) = drop_all s

length-take : (n : ℕ) (s : Text) → length (take n s) ≤ n
length-take zero s = omega arith
length-take (suc n) [] = omega arith
length-take (suc n) (b ∷ s) = omega (arith, length-take n s)

-- The reader's view of a buffer: the packet p as it came, with the read offset behind p's own bytes
-- and with more bytes behind those of q.
abbrev pub reading : Packet → Packet → List ℕ → Packet
reading p q rest = record q { buffer = q.buffer ++ rest; read_offset = length p.buffer }

reading-unread :
    (p q : Packet) (added rest : List ℕ)
    → q.buffer ≡ p.buffer ++ added
    → unread (reading p q rest) ≡ added ++ rest
reading-unread p q added rest e =
    rw (e, append_assoc p.buffer added rest) (drop-append p.buffer (added ++ rest))

-- A 16-bit number is read back as it was written, and the read stops right behind it.
read_uint16-write_uint16 :
    (p : Packet) (v : ℕ) (rest : List ℕ)
    → v < 2 ^ 16
    → (read_uint16 (reading p (write_uint16 v p) rest)
        ≡ (advance 2 (reading p (write_uint16 v p) rest), some v))
      × (unread (advance 2 (reading p (write_uint16 v p) rest)) ≡ rest)
unfolding write_uint16
read_uint16-write_uint16 p v rest h =
    let q = reading p (write_uint16 v p) rest in
    let hi = v / 2 ^ 8 % 2 ^ 8 in
    let lo = v % 2 ^ 8 in
    let r =
      read_uint16-cons q hi lo rest (omega arith) (omega arith)
        (reading-unread p (write_uint16 v p) (hi ∷ lo ∷ []) rest refl) in
    let e : hi * 256 + lo ≡ v = omega arith in (r.0 ∙ ap (λ (n : ℕ). (advance 2 q, some n)) e, r.1)

write_string-buffer :
    (s : Text) (p : Packet)
    → (write_string s p).buffer
      ≡ p.buffer ++ ((length s % 2 ^ 16 / 2 ^ 8 % 2 ^ 8 ∷ length s % 2 ^ 16 % 2 ^ 8 ∷ []) ++ s)
unfolding write_string
write_string-buffer s p = append_assoc p.buffer _ s

pub take_all : (s : Text) → take (length s) s ≡ s
take_all [] = refl
take_all (b ∷ s) = ap (◌∷◌ b) (take_all s)

reading-within :
    (p q : Packet) (added rest : List ℕ)
    → q.buffer ≡ p.buffer ++ added
    → length (reading p q rest).buffer ≡ length p.buffer + length added + length rest
reading-within p q added rest e = rw (e, length-append, length-append) refl

-- Whatever its length, of a string that was written the reader gets the first `length s % 65536`
-- bytes, and goes on right behind those: of a longer string the remaining bytes are left unread.
read_string-write_string :
    (p : Packet) (s rest : Text)
    → ((read_string (reading p (write_string s p) rest)).1 ≡ some (take (length s % 2 ^ 16) s))
      × (unread (read_string (reading p (write_string s p) rest)).0
          ≡ drop (length s % 2 ^ 16) s ++ rest)
unfolding read_string
read_string-write_string p s rest =
    let q = reading p (write_string s p) rest in
    let n = length s % 2 ^ 16 in
    let hi = n / 2 ^ 8 % 2 ^ 8 in
    let lo = n % 2 ^ 8 in
    let r =
      read_uint16-cons q hi lo (s ++ rest) (omega arith) (omega arith)
        (reading-unread p (write_string s p) _ rest (write_string-buffer s p)) in
    let e : hi * 256 + lo ≡ n = omega arith in
    let b = reading-within p (write_string s p) _ rest (write_string-buffer s p) in
    let fits : n ≤ length (s ++ rest) = omega (arith, length-append s rest) in
    let f = read_bytes_fits (advance 2 q) n (omega (arith, b)) (rw (r.1) fits) in
    rw (r.0, e, f)
      (
        ap (λ (t : List ℕ). some (take n t)) r.1 ∙ ap some (take_short n s rest (omega arith)),
        sym (drop-drop (length p.buffer + 2) n q.buffer)
            ∙ ap (drop n) r.1
            ∙ drop_short n s rest (omega arith),
      )

-- A string of at most 65535 bytes is read back whole, and what follows it is left unread.
pub read_string-write_string_short :
    (p : Packet) (s rest : Text)
    → length s < 2 ^ 16
    → ((read_string (reading p (write_string s p) rest)).1 ≡ some s)
      × (unread (read_string (reading p (write_string s p) rest)).0 ≡ rest)
read_string-write_string_short p s rest h =
    let r = read_string-write_string p s rest in
    let e : length s % 2 ^ 16 ≡ length s = omega arith in
    (r.0 ∙ rw e (ap some (take_all s)), r.1 ∙ rw e (ap (λ (t : Text). t ++ rest) (drop_all s)))

-- A string of 65536 bytes or more never comes back: `write_string` narrows its length.
pub read_string-write_string_long :
    (p : Packet) (s rest : Text)
    → 2 ^ 16 ≤ length s
    → (read_string (reading p (write_string s p) rest)).1 ≢ some s
read_string-write_string_long p s rest h e =
    let r = read_string-write_string p s rest in
    absurd (
      omega
        (arith, length-take (length s % 2 ^ 16) s, ap length (some-injective _ _ (sym r.0 ∙ e))))
