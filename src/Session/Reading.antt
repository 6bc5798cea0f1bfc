-- ===== src/Session/Reading.antt =====
-- `recv` of src/Packet.cpp, and the loops of `recvLoop`, keep the client in step with its connection.
use true_mqtt_cpp.Base.{
  ℕ, zero, suc, ◌-◌, ◌*◌, ◌%◌, ◌^◌, ◌≡◌, refl, Bool, true, false, none, some, Option, List, [], ◌∷◌,
  ◌++◌, ◌==◌, if◌then◌else◌, length, bit_or, arith, inl, inr, Bool-cases,
}
use true_mqtt_cpp.Base.Bits.{shr, low_bits}
use true_mqtt_cpp.Client.{Impl, M}
use true_mqtt_cpp.Sender.{send_ping_request}
use true_mqtt_cpp.Handlers.Validity.{Ensures, Ensures-ok, Result-cases}
use true_mqtt_cpp.Receiver.{
  Arrival, arrived, closed, failed, Poll, World, Outcome, done, faulted, waiting, W, bind_outcome,
  or_false, lift, pure, keep_alive, is_stopping, take_bytes, recv_round, recv_loop_over, recv,
  recv_byte, read_length, read_body,
}
use true_mqtt_cpp.Session.Sending.{IsFit}

-- What a read leaves behind, where it does not fault.
abbrev pub Leaves : {A : Type 0} → Outcome A → Type 0
Leaves (done a w) = IsFit w.impl
Leaves (faulted e) = Unit {0}
Leaves (waiting w) = IsFit w.impl

-- A read that keeps client and connection in step.
abbrev pub IsKeeper : {A : Type 0} → W A → Type 0
IsKeeper m = (w : World) → IsFit w.impl → Leaves (m w)

pub bind-IsKeeper :
    {A B : Type 0} (m : W A) (f : A → W B)
    → IsKeeper m
    → ((a : A) → IsKeeper (f a))
    → IsKeeper (λ w. bind_outcome (m w) f)
bind-IsKeeper {A = A} {B = B} m f hm hf w v = at (m w) (hm w v)
  where
    at : (o : Outcome A) → Leaves o → Leaves (bind_outcome o f)
    at (done a w') h = hf a w' h
    at (faulted e) h = tt
    at (waiting w') h = h

pub lift-IsKeeper :
    {A : Type 0} (m : M A) → ((s : Impl) → IsFit s → Ensures IsFit (m s)) → IsKeeper (lift m)
lift-IsKeeper m h w v = elim (Result-cases (m w.impl)) [
  | inl ((a, t), e) ↦ rw e (Ensures-ok IsFit _ (h w.impl v) e)
  | inr (f, e) ↦ rw e tt
]

keep_alive-IsFit : (now later : ℕ) (s : Impl) → IsFit s → Ensures IsFit (keep_alive now later s)
unfolding keep_alive send_ping_request
keep_alive-IsFit now later s v = ground arith

pub take_bytes-IsKeeper : (n : ℕ) (a : Arrival) → IsKeeper (take_bytes n a)
take_bytes-IsKeeper n closed w v = v
take_bytes-IsKeeper n failed w v = v
take_bytes-IsKeeper n (arrived k) w v = at w.incoming refl
  where
    at : (bytes : List ℕ) → w.incoming ≡ bytes → Leaves (take_bytes n (arrived k) w)
    at [] e = rw e v
    at (b ∷ bs) e = rw e v

pub recv_round-IsKeeper :
    (n : ℕ) (p : Poll) (again : W (Option (List ℕ))) (heard : Bool)
    → IsKeeper again
    → IsKeeper (recv_round n p again heard)
recv_round-IsKeeper n p again false h w v = v
recv_round-IsKeeper n p again true h w v = elim (Bool-cases p.ready) [
  | inl e ↦ rw e (take_bytes-IsKeeper n p.arrival w v)
  | inr e ↦ rw e (h w v)
]

pub recv_loop_over-IsKeeper : (ps : List Poll) (n : ℕ) → IsKeeper (recv_loop_over ps n)
unfolding recv_loop_over
recv_loop_over-IsKeeper [] n w v = v
recv_loop_over-IsKeeper (p ∷ ps) n w v = elim (Bool-cases (is_stopping p.seen)) [
  | inl e ↦ rw e v
  | inr e ↦
      let go =
        bind-IsKeeper (lift (keep_alive p.now p.later)) (recv_round n p (recv_loop_over ps n))
          (lift-IsKeeper (keep_alive p.now p.later) (keep_alive-IsFit p.now p.later))
          (λ heard.
            recv_round-IsKeeper n p (recv_loop_over ps n) heard (recv_loop_over-IsKeeper ps n)) in
      rw e (go (record w { polls = ps }) v)
]

pub recv-IsKeeper : (n : ℕ) → IsKeeper (recv n)
unfolding recv
recv-IsKeeper n w v = recv_loop_over-IsKeeper w.polls n w v

pub recv_byte-IsKeeper : IsKeeper recv_byte
recv_byte-IsKeeper = bind-IsKeeper (recv 1) _ (recv-IsKeeper 1) (λ bytes w v. v)

pub or_false-IsKeeper :
    {A : Type 0} (o : Option A) (f : A → W Bool)
    → ((a : A) → IsKeeper (f a))
    → IsKeeper (or_false o f)
or_false-IsKeeper none f h w v = v
or_false-IsKeeper (some a) f h w v = h a w v

pub option-IsKeeper :
    {A B : Type 0} (o : Option A) (n : W B) (f : A → W B)
    → IsKeeper n
    → ((a : A) → IsKeeper (f a))
    → IsKeeper (elim o [ none ↦ n | some a ↦ f a ])
option-IsKeeper none n f hn hf = hn
option-IsKeeper (some a) n f hn hf = hf a

pub chunk-IsKeeper :
    {B : Type 0} (o : Option (List ℕ)) (n : W B) (m : W B) (f : ℕ → List ℕ → W B)
    → IsKeeper n
    → IsKeeper m
    → ((b : ℕ) (bs : List ℕ) → IsKeeper (f b bs))
    → IsKeeper (elim o [ none ↦ n | some chunk ↦ elim chunk [ [] ↦ m | b ∷ bs ↦ f b bs ] ])
chunk-IsKeeper none n m f hn hm hf = hn
chunk-IsKeeper (some []) n m f hn hm hf = hm
chunk-IsKeeper (some (b ∷ bs)) n m f hn hm hf = hf b bs

pub if-IsKeeper :
    {B : Type 0} (test : Bool) (m n : W B)
    → IsKeeper m
    → IsKeeper n
    → IsKeeper (if test then m else n)
if-IsKeeper true m n hm hn = hm
if-IsKeeper false m n hm hn = hn

pub pure-IsKeeper : {A : Type 0} (a : A) → IsKeeper (pure a)
pure-IsKeeper a w v = v

pub read_length-IsKeeper : (rounds i n : ℕ) → IsKeeper (read_length rounds i n)
unfolding read_length
read_length-IsKeeper zero i n = pure-IsKeeper {A = Option ℕ} none
read_length-IsKeeper (suc rounds) i n = bind-IsKeeper recv_byte _ recv_byte-IsKeeper λ o.
    option-IsKeeper o (pure none) _ (pure-IsKeeper {A = Option ℕ} none) λ b.
      let m = bit_or n (low_bits b 7 * 2 ^ (7 * i)) in
      if-IsKeeper (shr b 7 % 2 == 0) _ _ (pure-IsKeeper (some m))
        (read_length-IsKeeper rounds (suc i) m)

pub read_body-IsKeeper : (fuel n : ℕ) (bytes : List ℕ) → IsKeeper (read_body fuel n bytes)
unfolding read_body
read_body-IsKeeper zero n bytes = pure-IsKeeper (some bytes)
read_body-IsKeeper (suc fuel) n bytes = if-IsKeeper (n == 0) _ _ (pure-IsKeeper (some bytes)) (
    bind-IsKeeper (recv n) _ (recv-IsKeeper n) λ o.
      chunk-IsKeeper o (pure none) (pure none) _ (pure-IsKeeper {A = Option (List ℕ)} none)
        (pure-IsKeeper {A = Option (List ℕ)} none)
        λ b bs. read_body-IsKeeper fuel (n - length (b ∷ bs)) (bytes ++ (b ∷ bs)))
