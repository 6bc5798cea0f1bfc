-- ===== src/Handlers/Board.antt =====
-- What a user of the client in src/Client.cpp may take the subscriptions for: a list of filters with
-- their callbacks, which knows no tree, no flat list and no connection.
use true_mqtt_cpp.Base.{
  ℕ, ◌+◌, ◌≡◌, refl, inl, inr, Bool, true, false, not, List, [], ◌∷◌, ◌++◌, Text, arith, Bool-cases,
  text_eq, text_eq→eq, text_eq_self, if◌then◌else◌, ap, ◌∙◌, ◌==◌, count, count-append, bag, bag-eq,
}
use true_mqtt_cpp.Subscription.{Children, parts, find_match}
use true_mqtt_cpp.Subscription.Parts.{parts-injective}
use true_mqtt_cpp.Subscription.Lookup.{callbacks_at, filter_eq, filter_eq_iff, filter_eq_self}
use true_mqtt_cpp.Subscription.Matching.{visited, gather, find_match-gather}
use true_mqtt_cpp.Subscription.Counting.{reaches, is_plain, times, times-visited}
use true_mqtt_cpp.Client.{Impl}
use true_mqtt_cpp.Client.Topics.{set_contains}
use true_mqtt_cpp.Handlers.{is_disconnected}
use true_mqtt_cpp.Handlers.Lifecycle.{Operation, connects, disconnects, subscribes, unsubscribes}

-- `up` from connect to disconnect.
pub record Board : Type 0 where
  pub up : Bool
  pub entries : List (Text × ℕ)

abbrev pub without : Text → List (Text × ℕ) → List (Text × ℕ)
without t [] = []
without t (e ∷ es) = if text_eq t e.0 then without t es else e ∷ without t es

-- What a call does.
unfoldable pub step : Operation → Board → Board
step connects b = record b { up = true }
step disconnects b = if b.up then record { up = false; entries = [] } else b
step (subscribes t cb) b = if b.up then record b { entries = b.entries ++ ((t, cb) ∷ []) } else b
step (unsubscribes t) b = if b.up then record b { entries = without t b.entries } else b
step _ b = b

unfoldable pub replay : List Operation → Board → Board
unfolding step
replay [] b = b
replay (op ∷ ops) b = replay ops (step op b)

-- The callbacks of a message with this topic, in the order of their subscriptions.
unfoldable pub told : Text → List (Text × ℕ) → List ℕ
unfolding reaches
told t [] = []
told t (e ∷ es) = if reaches (parts e.0) (parts t) then e.1 ∷ told t es else told t es

-- The callbacks of a filter.
abbrev pub entries_at : List Text → List (Text × ℕ) → List ℕ
entries_at f [] = []
entries_at f (e ∷ es) = if filter_eq (parts e.0) f then e.1 ∷ entries_at f es else entries_at f es

-- A client whose tree has the callbacks of the board, and whose flat list has every topic of the tree.
pub record Shows (b : Board) (s : Impl) : Type 0 where
  pub is_up : b.up ≡ not (is_disconnected s.state)
  pub same : (f : List Text) → callbacks_at f s.subscriptions ≡ entries_at f b.entries
  pub listed :
      (t : Text)
      → set_contains t s.subscription_topics ≡ false
      → callbacks_at (parts t) s.subscriptions ≡ []

pub entries_at-append :
    (f : List Text) (es : List (Text × ℕ)) (t : Text) (cb : ℕ)
    → entries_at f (es ++ ((t, cb) ∷ []))
      ≡ (if filter_eq (parts t) f then entries_at f es ++ (cb ∷ []) else entries_at f es)
entries_at-append f [] t cb = ground arith
entries_at-append f (e ∷ es) t cb = ground (arith, entries_at-append f es t cb)

pub filter_eq-parts : (t u : Text) → filter_eq (parts t) (parts u) ≡ text_eq t u
filter_eq-parts t u = elim (Bool-cases (text_eq t u)) [
  | inl e ↦ rw (text_eq→eq t u e) (ground (arith, filter_eq_self (parts u), text_eq_self u))
  | inr e ↦ elim (Bool-cases (filter_eq (parts t) (parts u))) [
    | inl k ↦
        ground (arith, e, parts-injective t u (filter_eq_iff (parts t) (parts u) k), text_eq_self t)
    | inr k ↦ ground (arith, e, k)
  ]
]

pub entries_at-without :
    (f : List Text) (t : Text) (es : List (Text × ℕ))
    → entries_at f (without t es) ≡ (if filter_eq (parts t) f then [] else entries_at f es)
entries_at-without f t [] = ground arith
entries_at-without f t (e ∷ es) = ground (
  arith,
  entries_at-without f t es,
  text_eq→eq t e.0,
  filter_eq_iff (parts t) f,
  filter_eq_iff (parts e.0) f,
  parts-injective t e.0,
  text_eq_self t,
)

-- Where a filter has no callback, nothing is taken off for it.
pub entries_at-none :
    (f : List Text) (t : Text) (es : List (Text × ℕ))
    → entries_at (parts t) es ≡ []
    → entries_at f (without t es) ≡ entries_at f es
entries_at-none f t [] h = refl
entries_at-none f t (e ∷ es) h = elim (Bool-cases (text_eq t e.0)) [
  | inl same ↦
      absurd (ground (arith, h, filter_eq-parts e.0 t, text_eq→eq t e.0 same, text_eq_self t))
  | inr other ↦
      let k : filter_eq (parts e.0) (parts t) ≡ false =
        ground (arith, filter_eq-parts e.0 t, text_eq→eq e.0 t, text_eq_self t) in
      rw (other, entries_at-none f t es (rw k at h)) refl
]

-- The callbacks of some filters, in a board.
abbrev pub gathered : List (List Text) → List (Text × ℕ) → List ℕ
gathered [] es = []
gathered (f ∷ fs) es = entries_at f es ++ gathered fs es

pub gather-gathered :
    (fs : List (List Text)) (cs : Children) (es : List (Text × ℕ))
    → ((f : List Text) → callbacks_at f cs ≡ entries_at f es)
    → gather fs cs ≡ gathered fs es
unfolding gather
gather-gathered [] cs es h = refl
gather-gathered (f ∷ fs) cs es h = rw (h f, gather-gathered fs cs es h) refl

count-gathered :
    (x : ℕ) (fs : List (List Text)) (e : Text × ℕ) (es : List (Text × ℕ))
    → count x (gathered fs (e ∷ es))
      ≡ (if x == e.1 then times (parts e.0) fs else 0) + count x (gathered fs es)
count-gathered x [] e es = ground arith
count-gathered x (f ∷ fs) e es = ground (
  arith,
  count-gathered x fs e es,
  count-append x (entries_at f (e ∷ es)) (gathered fs (e ∷ es)),
  count-append x (entries_at f es) (gathered fs es),
)

gathered-nil : (fs : List (List Text)) → gathered fs [] ≡ []
gathered-nil [] = refl
gathered-nil (f ∷ fs) = gathered-nil fs

pub count-told :
    (x : ℕ) (t : Text) (es : List (Text × ℕ))
    → is_plain (parts t) ≡ true
    → count x (gathered (visited (parts t)) es) ≡ count x (told t es)
unfolding told
count-told x t [] h = ap (count x) (gathered-nil (visited (parts t)))
count-told x t (e ∷ es) h = ground (
  arith,
  count-told x t es h,
  count-gathered x (visited (parts t)) e es,
  times-visited (parts e.0) (parts t) h,
)

-- The callbacks that a message is delivered to, in a tree that has the callbacks of a board.
pub find_match-told :
    (t : Text) (cs : Children) (es : List (Text × ℕ))
    → ((f : List Text) → callbacks_at f cs ≡ entries_at f es)
    → is_plain (parts t) ≡ true
    → bag (find_match (parts t) cs) ≡ bag (told t es)
find_match-told t cs es same h = bag-eq (find_match (parts t) cs) (told t es) λ x.
    ap (count x) (find_match-gather (parts t) cs ∙ gather-gathered (visited (parts t)) cs es same)
    ∙ count-told x t es h
