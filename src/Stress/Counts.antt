-- ===== src/Stress/Counts.antt =====
-- The program of example/stress/main.cpp goes on, and what it prints adds up.
use true_mqtt_cpp.Base.{ℕ, ◌+◌, ◌≤◌, ◌≡◌, Bool, true, false, List, [], ◌∷◌, ◌++◌}
use true_mqtt_cpp.Client.{Impl, Result, ok, fault}
use true_mqtt_cpp.Stress.{
  Stress, Report, Happening, loops, hears, publish_round, counted, arrivals_in, happen,
}
use true_mqtt_cpp.Stress.Ready.{IsReady}

-- The messages that the reports count.
abbrev pub told_sent : List Report → ℕ
told_sent [] = 0
told_sent (r ∷ rs) = r.sent + told_sent rs

abbrev pub told_failed : List Report → ℕ
told_failed [] = 0
told_failed (r ∷ rs) = r.failed + told_failed rs

abbrev pub told_received : List Report → ℕ
told_received [] = 0
told_received (r ∷ rs) = r.received + told_received rs

-- What `publish` has returned in the rounds, one after the other.
abbrev pub outcome : Result (Bool × Impl) → List Bool
outcome (ok (b, s)) = b ∷ []
outcome (fault e) = []

abbrev pub outcome_of : Happening → Stress → List Bool
outcome_of (loops now payload between) x = outcome (publish_round payload x)
outcome_of (hears m) x = []

abbrev pub after : Result (List Report × Stress) → (Stress → List Bool) → List Bool
after (ok (rs, y)) f = f y
after (fault e) f = []

unfoldable pub outcomes : List Happening → Stress → List Bool
outcomes [] x = []
outcomes (e ∷ es) x = outcome_of e x ++ after (happen e x) (outcomes es)

abbrev pub trues : List Bool → ℕ
trues [] = 0
trues (true ∷ bs) = 1 + trues bs
trues (false ∷ bs) = trues bs

abbrev pub falses : List Bool → ℕ
falses [] = 0
falses (true ∷ bs) = falses bs
falses (false ∷ bs) = 1 + falses bs

-- No message comes between a print and the reset behind it.
abbrev pub AreApart : List Happening → Type 0
AreApart [] = Unit {0}
AreApart (loops now payload between ∷ es) = (between ≡ []) × AreApart es
AreApart (hears m ∷ es) = AreApart es

-- From one state of the program to another, where `publish` has returned `bs`. What is printed, with
-- what is still counted, is for `sent` and for `failed` what was counted at first and the rounds whose
-- `publish` returned true or false. For `received` it is no more than what was counted at first and the
-- calls of the callback, and as much if the messages come apart.
pub record AddsUp (Apart : Type 0) (bs : List Bool) (x : Stress) (rs : List Report) (y : Stress)
    : Type 0 where
  pub all_sent : told_sent rs + y.sent ≡ x.sent + trues bs
  pub all_failed : told_failed rs + y.failed ≡ x.failed + falses bs
  pub some_received :
      told_received rs + y.received + arrivals_in x.client.calls
      ≤ x.received + arrivals_in y.client.calls
  pub all_received :
      Apart
      → told_received rs + y.received + arrivals_in x.client.calls
        ≡ x.received + arrivals_in y.client.calls

abbrev Goes : Type 0 → List Bool → Stress → Result (List Report × Stress) → Type 0
Goes apart bs x r =
    (rs : List Report) × (y : Stress) × (r ≡ ok (rs, y)) × IsReady y.client × AddsUp apart bs x rs y

-- What messages do to the counters.
abbrev Hears : Stress → Result Stress → Type 0
Hears x r =
    (y : Stress) × (r ≡ ok y)
    × IsReady y.client
    × (y.sent ≡ x.sent)
    × (y.failed ≡ x.failed)
    × (x.received ≤ y.received)
    × (y.received + arrivals_in x.client.calls ≡ x.received + arrivals_in y.client.calls)

abbrev printed_of : Stress → Report
printed_of x = record { sent = x.sent; received = x.received; failed = x.failed }

abbrev reset_at : ℕ → Stress → Stress
reset_at now y = record y { sent = 0; received = 0; failed = 0; start = now }

-- A round whose `publish` has returned.
abbrev published : Bool → Impl → ℕ → Stress → Stress
published b client channel x = counted b (record x { client = client; channel = channel })
