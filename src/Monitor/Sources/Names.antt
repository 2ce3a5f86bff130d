-- ===== src/Monitor/Sources/Names.antt =====
-- The name in /proc/PID/comm, as the kernel prints it, is read back by final/src/monitor_final.c.
use capstone_monitor.Base.{
  ℕ, zero, suc, ◌-◌, ◌≡◌, refl, ap, ◌∙◌, false, some, List, [], ◌∷◌, ◌++◌, take, elem, ◌==◌, arith,
}
use capstone_monitor.Monitor.Sources.{strip_newline, read_proc_comm}

strip_newline-cons :
    (c : ℕ) (s : List ℕ) → (c == 10) ≡ false → strip_newline (c ∷ s) ≡ c ∷ strip_newline s
unfolding strip_newline
strip_newline-cons c [] h = rw h refl
strip_newline-cons c (d ∷ s) h = refl

strip_newline-take :
    (n : ℕ) (s : List ℕ) → elem 10 s ≡ false → strip_newline (take n (s ++ 10 ∷ [])) ≡ take n s
unfolding strip_newline
strip_newline-take zero s h = refl
strip_newline-take (suc zero) [] h = refl
strip_newline-take (suc (suc n)) [] h = refl
strip_newline-take (suc n) (c ∷ s) h =
    let other : (c == 10) ≡ false = ground (arith, h) in
    let more : elem 10 s ≡ false = ground (arith, h) in
    strip_newline-cons c (take n (s ++ 10 ∷ [])) other ∙ ap (◌∷◌ c) (strip_newline-take n s more)

-- From a name without newlines and a newline behind it, as much of the name is read as fits into the
-- buffer with its NUL.
pub read_proc_comm-name :
    (len : ℕ) (name : List ℕ)
    → elem 10 name ≡ false
    → read_proc_comm len (some (name ++ 10 ∷ [])) ≡ take (len - 1) name
unfolding read_proc_comm
read_proc_comm-name len name h = strip_newline-take (len - 1) name h
