-- ===== src/RingBuffer/Shared/Views.antt =====
-- Changes of what descriptors, names and addresses stand for, in final/src/ring_buffer.c.
use mathlib.Core.Path.{fun_ext}
use capstone_monitor.Base.{
  ℕ, ◌≡◌, refl, sym, ◌∙◌, inl, inr, ap, true, false, Option, none, some, List, [], ◌∷◌, Array, set,
  set_self, set_ne, same_text, eq_cases, eq→==,
}
use capstone_monitor.RingBuffer.{RingBuffer, rb_init}
use capstone_monitor.RingBuffer.Shared.{clear_ring}
use capstone_monitor.Shm.{View, set_name, Shm, ShmLaws}

-- A descriptor that is opened and closed again.
pub set-undone {ℓ} :
    {B : Type ℓ} (a : Array B) (i : ℕ) (x y : B) → a i ≡ y → set (set a i x) i y ≡ a
set-undone a i x y e = fun_ext (λ j. elim (eq_cases i j) [
  | inl s ↦ rw (← s) (set_self (set a i x) i y ∙ sym e)
  | inr n ↦ set_ne (set a i x) i j y n ∙ set_ne a i j x n
])

pub set-same {ℓ} : {B : Type ℓ} (a : Array B) (i : ℕ) (x y : B) → set (set a i x) i y ≡ set a i y
set-same a i x y = fun_ext (λ j. elim (eq_cases i j) [
  | inl s ↦ rw (← s) (set_self (set a i x) i y ∙ sym (set_self a i y))
  | inr n ↦ set_ne (set a i x) i j y n ∙ set_ne a i j x n ∙ sym (set_ne a i j y n)
])

pub same_text_self : (n : List ℕ) → same_text n n ≡ true
unfolding same_text
same_text_self [] = refl
same_text_self (c ∷ n) = rw (eq→== c c refl, same_text_self n) refl

pub set_name_self :
    (names : List ℕ → Option ℕ) (n : List ℕ) (o : Option ℕ) → set_name names n o n ≡ o
unfolding set_name
set_name_self names n o = rw (same_text_self n) refl

pub set_name_other :
    (names : List ℕ → Option ℕ) (n m : List ℕ) (o : Option ℕ)
    → same_text n m ≡ false
    → set_name names n o m ≡ names m
unfolding set_name
set_name_other names n m o h = rw h refl

module _ {A : Type 0} (shm : Shm A) (laws : ShmLaws shm) where
  open shm use {World, close, store, view}

  -- Closing the descriptor that was opened last.
  pub close-view :
      (u : View A) (f : Array (Option ℕ)) (fd : ℕ) (x : Option ℕ) (w : World)
      → f fd ≡ none
      → view w ≡ record u { fds = set f fd x }
      → view (close fd w) ≡ record u { fds = f }
  close-view u f fd x w c e =
      laws.closes fd w
      ∙ ap (λ (s : View A). record s { fds = set s.fds fd none }) e
      ∙ ap (λ (g : Array (Option ℕ)). record u { fds = g }) (set-undone f fd x none c)

  -- A store to an object that was written before.
  store-view :
      (v : View A) (o a : ℕ) (x : RingBuffer A) (g : RingBuffer A → RingBuffer A) (w : World)
      → v.maps a ≡ some o
      → view w ≡ record v { rings = set v.rings o x }
      → view (store a g w) ≡ record v { rings = set v.rings o (g x) }
  store-view v o a x g w m e =
      laws.stores a g w o (ap (λ (s : View A). s.maps a) e ∙ m)
      ∙ ap (λ (s : View A). record s { rings = set s.rings o (g (s.rings o)) }) e
      ∙ ap (λ (r : Array (RingBuffer A)). record v { rings = r })
          (set-same v.rings o x (g (set v.rings o x o))
            ∙ ap (λ y. set v.rings o (g y)) (set_self v.rings o x))

  pub clear_ring-view :
      (blank : A) (v : View A) (o a : ℕ) (x : RingBuffer A) (w : World)
      → v.maps a ≡ some o
      → view w ≡ record v { rings = set v.rings o x }
      → view (clear_ring shm blank a w) ≡ record v { rings = set v.rings o (rb_init blank) }
  unfolding clear_ring rb_init
  clear_ring-view blank v o a x w m e =
      store-view v o a _ (λ r. record r { tail = 0 }) _ m
        (store-view v o a _ (λ r. record r { head = 0 }) _ m
          (store-view v o a x (λ r. record r { slots = λ _. blank }) w m e))
