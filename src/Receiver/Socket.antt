-- ===== src/Receiver/Socket.antt =====
-- Reading from a connection on which bytes keep coming.
use true_mqtt_cpp.Base.{
  ℕ, zero, suc, ◌+◌, ◌-◌, ◌*◌, ◌/◌, ◌%◌, ◌^◌, ◌≤◌, ◌<◌, ◌≡◌, refl, true, false, some, List, [], ◌∷◌,
  ◌++◌, length, take, drop, min, arith, length_zero, ◌==◌, ltb, ap, ◌∙◌, Bool-cases, inl, inr, All,
  take_short, drop_short, length-take_short, length-drop, take-append-drop,
}
use mathlib.Core.List.{append_assoc, append-nil}
use true_mqtt_cpp.Base.Bits.{shr, bit_or_low}
use true_mqtt_cpp.Frame.Length.{length_bytes, length-length_bytes}
use native.Mathlib.Nat.{div-add-mod, pow-suc}
use native.Mathlib.Numerals.{towards_suc}
use true_mqtt_cpp.Connection.{Connection}
use true_mqtt_cpp.Client.{Impl}
use true_mqtt_cpp.Receiver.{
  arrived, Poll, World, done, is_stopping, keep_alive, recv_loop_over, recv, recv_byte, read_length,
  read_body,
}

-- A round that goes on to read: no stop is requested, neither interval of the keep-alive is over, and
-- there is something to read.
pub record IsSteady (c : Connection) (s : Impl) (p : Poll) : Type 0 where
  pub goes_on : is_stopping p.seen ≡ false
  pub sent_lately : p.now ≤ c.last_sent_packet + s.keep_alive_interval
  pub heard_lately : p.now ≤ c.last_received_packet + s.keep_alive_interval * 15 / 10
  pub is_ready : p.ready ≡ true
  pub at_most : ℕ
  pub reads : p.arrival ≡ arrived at_most

-- A reader whose polls are all steady.
abbrev pub AllSteady : Connection → Impl → List Poll → Type 0
AllSteady c s = All (IsSteady c s)

abbrev pub world : Impl → List ℕ → List Poll → World
world s incoming polls = record { impl = s; incoming = incoming; polls = polls }

recv_steady :
    (c : Connection) (s : Impl) (p : Poll) (ps : List Poll) (n b : ℕ) (bs : List ℕ)
    → s.connection ≡ some c
    → (h : IsSteady c s p)
    → recv n (world s (b ∷ bs) (p ∷ ps))
      ≡ done
          (some (take (min n (suc h.at_most)) (b ∷ bs)))
          (world s (drop (min n (suc h.at_most)) (b ∷ bs)) ps)
unfolding recv recv_loop_over keep_alive
recv_steady c s p ps n b bs e h = ground arith

module _ (c : Connection) (s : Impl) (linked : s.connection ≡ some c) where
  pub recv_byte_steady :
      (p : Poll) (ps : List Poll) (b : ℕ) (bs : List ℕ)
      → IsSteady c s p
      → recv_byte (world s (b ∷ bs) (p ∷ ps)) ≡ done (some b) (world s bs ps)
  recv_byte_steady p ps b bs h =
      let one : min 1 (suc h.at_most) ≡ 1 = omega arith in
      rw (recv_steady c s p ps 1 b bs linked h, one) refl

  -- The rest of a list of polls, behind the first ones.
  pub behind : (qs ps : List Poll) → AllSteady c s (qs ++ ps) → AllSteady c s ps
  behind [] ps h = h
  behind (q ∷ qs) ps h = behind qs ps h.1

shift_seven : (s : ℕ) → 2 ^ (s + 7) ≡ 128 * 2 ^ s
shift_seven s = simp towards_suc (omega arith)

next_shift : (i : ℕ) → 2 ^ (7 * suc i) ≡ 128 * 2 ^ (7 * i)
next_shift i = let e : 7 * suc i ≡ 7 * i + 7 = omega arith in rw e (shift_seven (7 * i))

-- Behind one more group of seven bits.
group_below : (acc n unit : ℕ) → acc < unit → acc + n % 128 * unit < 128 * unit
group_below acc n unit h = grind arith

group_sum : (acc n unit : ℕ) → acc + n % 128 * unit + n / 128 * (128 * unit) ≡ acc + n * unit
group_sum acc n unit = omega (arith, ap (λ (t : ℕ). t * unit) (div-add-mod n 128))

module _ (c : Connection) (s : Impl) (linked : s.connection ≡ some c) where
  read_length_last :
      (p : Poll) (ps : List Poll) (rounds i acc n : ℕ) (rest : List ℕ)
      → n < 128
      → acc < 2 ^ (7 * i)
      → IsSteady c s p
      → read_length (suc rounds) i acc (world s (n ∷ rest) (p ∷ ps))
        ≡ done (some (acc + n * 2 ^ (7 * i))) (world s rest ps)
  unfolding read_length
  read_length_last p ps rounds i acc n rest h a st =
      let last : (shr n 7 % 2 == 0) ≡ true = ground arith in
      let low : n % 2 ^ 7 ≡ n = omega arith in
      rw (recv_byte_steady c s linked p ps n rest st, last, low, bit_or_low (7 * i) n acc a) refl

  read_length_inner :
      (p : Poll) (ps : List Poll) (rounds i acc n : ℕ) (rest : List ℕ)
      → acc < 2 ^ (7 * i)
      → IsSteady c s p
      → read_length (suc rounds) i acc (world s ((n % 128 + 128) ∷ rest) (p ∷ ps))
        ≡ read_length rounds (suc i) (acc + n % 128 * 2 ^ (7 * i)) (world s rest ps)
  unfolding read_length
  read_length_inner p ps rounds i acc n rest a st =
      let more : (shr (n % 128 + 128) 7 % 2 == 0) ≡ false = ground arith in
      let low : (n % 128 + 128) % 2 ^ 7 ≡ n % 128 = omega arith in
      rw
        (
          recv_byte_steady c s linked p ps (n % 128 + 128) rest st,
          more,
          low,
          bit_or_low (7 * i) (n % 128) acc a,
        )
        refl

  -- The remaining length is read back from its encoding, in as many rounds as it has bytes.
  pub read_length-length_bytes :
      (k rounds i acc n : ℕ) (rest : List ℕ) (qs ps : List Poll)
      → n < 128 ^ suc k
      → k < rounds
      → acc < 2 ^ (7 * i)
      → length qs ≡ length (length_bytes k n)
      → AllSteady c s (qs ++ ps)
      → read_length rounds i acc (world s (length_bytes k n ++ rest) (qs ++ ps))
        ≡ done (some (acc + n * 2 ^ (7 * i))) (world s rest ps)
  unfolding length_bytes
  read_length-length_bytes k zero i acc n rest qs ps hn hk ha hl st = absurd (omega arith)
  read_length-length_bytes zero (suc r) i acc n rest [] ps hn hk ha hl st =
      absurd (omega (arith, hl))
  read_length-length_bytes zero (suc r) i acc n rest (q ∷ []) ps hn hk ha hl st =
      read_length_last q ps r i acc n rest (omega arith) ha st.0
  read_length-length_bytes zero (suc r) i acc n rest (q ∷ q' ∷ qs) ps hn hk ha hl st =
      absurd (omega (arith, hl))
  read_length-length_bytes (suc k) (suc r) i acc n rest [] ps hn hk ha hl st =
      absurd (omega (arith, hl, length-length_bytes (suc k) n))
  read_length-length_bytes (suc k) (suc r) i acc n rest (q ∷ qs) ps hn hk ha hl st =
      elim (Bool-cases (ltb n 128)) [
        | inl small ↦
            let none_left : qs ≡ [] = length_zero qs (ground (arith, hl)) in
            rw (small, none_left) (read_length_last q ps r i acc n rest (ground arith) ha st.0)
        | inr big ↦
            let unit = 2 ^ (7 * i) in
            rw
              (
                big,
                read_length_inner q (qs ++ ps) r i acc n (length_bytes k (n / 128) ++ rest) ha st.0,
              )
              (read_length-length_bytes k r (suc i) (acc + n % 128 * unit) (n / 128) rest qs ps
                  (omega (arith, pow-suc 128 (suc k))) (omega arith)
                  (rw (next_shift i) (group_below acc n unit ha)) (ground (arith, hl)) st.1
                ∙ rw (next_shift i, group_sum acc n unit) refl)
      ]

  read_body_round :
      (f n k b : ℕ) (bytes body rest : List ℕ) (p : Poll) (ps : List Poll)
      → 0 < n
      → (st : IsSteady c s p) → min n (suc st.at_most) ≡ suc k
      → k ≤ length body
      → read_body (suc f) n bytes (world s (b ∷ (body ++ rest)) (p ∷ ps))
        ≡ read_body f
            (n - length (b ∷ take k body))
            (bytes ++ (b ∷ take k body))
            (world s (drop k body ++ rest) ps)
  unfolding read_body
  read_body_round f n k b bytes body rest p ps pos st several fits =
      let not_done : (n == 0) ≡ false = ground arith in
      rw
        (
          not_done,
          recv_steady c s p ps n b (body ++ rest) linked st,
          several,
          take_short k body rest fits,
          drop_short k body rest fits,
        )
        refl

  -- A body of n bytes is read whole, in chunks of any sizes, when there are n steady polls.
  pub read_body_steady :
      (fuel n : ℕ) (bytes body rest : List ℕ) (ps : List Poll)
      → length body ≡ n
      → n ≤ fuel
      → n ≤ length ps
      → AllSteady c s ps
      → (qs : List Poll) × (read_body fuel n bytes (world s (body ++ rest) ps)
          ≡ done (some (bytes ++ body)) (world s rest qs))
  unfolding read_body
  read_body_steady zero n bytes [] rest ps hb hf hp st = (ps, rw append-nil refl)
  read_body_steady zero n bytes (b ∷ body) rest ps hb hf hp st = absurd (omega (arith, hb))
  read_body_steady (suc f) n bytes [] rest ps hb hf hp st =
      let z : (n == 0) ≡ true = ground (arith, hb) in (ps, rw (z, append-nil) refl)
  read_body_steady (suc f) n bytes (b ∷ body) rest [] hb hf hp st = absurd (omega (arith, hb))
  read_body_steady (suc f) n bytes (b ∷ body) rest (p ∷ ps) hb hf hp st =
      let k = min (n - 1) st.0.at_most in
      let chunk : List ℕ = b ∷ take k body in
      let size = length-take_short k body (omega (arith, hb)) in
      let (qs, e) =
        read_body_steady f (n - length chunk) (bytes ++ chunk) (drop k body) rest ps
          (omega (arith, length-drop k body, size, hb)) (omega (arith, size)) (omega (arith, size))
          st.1 in
      let round =
        read_body_round f n k b bytes body rest p ps (omega (arith, hb)) st.0 (omega arith)
          (omega (arith, hb)) in
      (
        qs,
        round
            ∙ e
            ∙ ap (λ (xs : List ℕ). done (some xs) (world s rest qs))
                (append_assoc bytes chunk (drop k body)
                  ∙ ap (λ (xs : List ℕ). bytes ++ (b ∷ xs)) (take-append-drop k body)),
      )
