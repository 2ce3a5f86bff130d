-- ===== src/Monitor/Lookup.antt =====
-- What find_slot of final/src/monitor_final.c finds behind add_pid.
use capstone_monitor.Base.{
  ℕ, zero, suc, ◌+◌, ◌<◌, ◌≡◌, refl, sym, ap, ◌∙◌, inl, inr, Option, none, some, ◌==◌,
  if◌then◌else◌, Array, Bool-cases, arith,
}
use capstone_monitor.Double.{Double}
use capstone_monitor.Os.{Os}
use capstone_monitor.Monitor.{PidState, Tables, CoreConfig, Tracer}
use capstone_monitor.Monitor.Slots.{find_from, find_slot}
use capstone_monitor.Monitor.AddPid.{add_pid}
use capstone_monitor.Monitor.Added.{IsAdded, add_pid-IsAdded}

-- the first of two results
abbrev pub or_else {ℓ} : {A : Type ℓ} → Option A → Option A → Option A
or_else none o = o
or_else (some a) o = some a

find_from-same :
    (s s' : Array PidState) (q i n : ℕ)
    → ((j : ℕ) → j < i + n → s' j ≡ s j)
    → find_from s' q i n ≡ find_from s q i n
unfolding find_from
find_from-same s s' q i zero h = refl
find_from-same s s' q i (suc n) h = λ k.
    if (h i (omega arith) k).pid == q
    then some i
    else find_from-same s s' q (i + 1) n (λ j lt. h j (omega (arith, lt))) k

-- the number of a slot, if it is for the pid
slot_if : Array PidState → ℕ → ℕ → Option ℕ
slot_if s q k = if (s k).pid == q then some k else none

find_from-suc :
    (s : Array PidState) (q i n : ℕ)
    → find_from s q i (suc n) ≡ or_else (find_from s q i n) (slot_if s q (i + n))
unfolding find_from slot_if
find_from-suc s q i zero = ap (λ k. if (s k).pid == q then some k else none) (omega arith)
find_from-suc s q i (suc n) = elim (Bool-cases ((s i).pid == q)) [
  | inl e ↦ rw e refl
  | inr e ↦ rw e (
      find_from-suc s q (i + 1) n
      ∙ ap (λ k. or_else (find_from s q (i + 1) n) (slot_if s q k)) (omega arith))
]

find_slot-IsAdded :
    {D : Type 0} (pid q : ℕ) (t t' : Tables D)
    → IsAdded pid t.n_active t t'
    → find_slot t' q ≡ or_else (find_slot t q) (if pid == q then some t.n_active else none)
unfolding find_slot slot_if
find_slot-IsAdded pid q t t' a =
    let n = t.n_active in
    let zero_plus : 0 + n ≡ n = omega arith in
    let count : t'.n_active ≡ suc n = omega (arith, a.n_active) in
    ap (find_from t'.states q 0) count
    ∙ find_from-suc t'.states q 0 n
    ∙ ap (λ k. or_else (find_from t'.states q 0 n) (slot_if t'.states q k)) zero_plus
    ∙ ap (λ o. or_else o (slot_if t'.states q n))
        (find_from-same t.states t'.states q 0 n (λ j lt. a.others j (λ e. omega (arith, lt, e))))
    ∙ ap (λ p. or_else (find_slot t q) (if p == q then some n else none)) a.new_pid

module _ (d : Double) (os : Os) (cfg : CoreConfig) (tracer : Tracer os.World) where
  -- If `add_pid` returns a slot, `find_slot` finds behind it what it found before, and for the new pid,
  -- if it was not found before, the slot returned.
  pub find_slot-add_pid :
      (pid q i : ℕ) (t : Tables d.Carrier) (w : os.World)
      → (add_pid d os cfg tracer pid (t, w)).0 ≡ some i
      → find_slot (add_pid d os cfg tracer pid (t, w)).1 q
        ≡ or_else (find_slot t q) (if pid == q then some i else none)
  find_slot-add_pid pid q i t w h = elim (add_pid-IsAdded d os cfg tracer pid t w) [
    | inl (e, k) ↦ absurd (none_some (sym e ∙ h))
    | inr (e, a) ↦
        find_slot-IsAdded pid q t (add_pid d os cfg tracer pid (t, w)).1 a
        ∙ ap (λ o. or_else (find_slot t q) (if pid == q then o else none)) (sym e ∙ h)
  ]
    where
      none_some : {A : Type 0} {a : A} → none ≡ some a → ⊥
      none_some h = grind arith
