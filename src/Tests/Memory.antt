-- ===== src/Tests/Memory.antt =====
-- A small kernel with shared memory, for rings of any entries: lists of what has been set.
use capstone_monitor.Base.{
  ℕ, ◌+◌, ◌<◌, ◌≡◌, refl, sym, ap, ◌∙◌, inl, inr, true, false, Option, none, some, List, [], ◌∷◌,
  Array, set, set_self, set_ne, eq_cases, arith,
}
use capstone_monitor.RingBuffer.{RingBuffer, rb_init}
use capstone_monitor.Shm.{set_name, Shm, IsLinked, ShmLaws}

-- what has been set, the last change first
pub record State (A : Type 0) : Type 0 where
  pub fds : List (ℕ × Option ℕ)
  pub names : List (List ℕ × Option ℕ)
  pub maps : List (ℕ × Option ℕ)
  pub rings : Array (RingBuffer A)

abbrev pub lookup : List (ℕ × Option ℕ) → Array (Option ℕ)
lookup [] = λ _. none
lookup (e ∷ es) = set (lookup es) e.0 e.1

abbrev pub lookup_name : List (List ℕ × Option ℕ) → List ℕ → Option ℕ
lookup_name [] = λ _. none
lookup_name (e ∷ es) = set_name (lookup_name es) e.0 e.1

-- above every number, and above every object, of a list
abbrev pub unused : List (ℕ × Option ℕ) → ℕ
unused [] = 1
unused (e ∷ es) = e.0 + unused es

abbrev pub above : Option ℕ → ℕ → ℕ
above none n = n
above (some o) n = o + n

abbrev pub unused_object : List (ℕ × Option ℕ) → ℕ
unused_object [] = 1
unused_object (e ∷ es) = above e.1 (unused_object es)

abbrev pub unused_name : List (List ℕ × Option ℕ) → ℕ
unused_name [] = 1
unused_name (e ∷ es) = above e.1 (unused_name es)

abbrev pub object_of : {A : Type 0} → State A → Option ℕ → ℕ
object_of s none = unused_object s.maps + (unused_object s.fds + unused_name s.names)
object_of s (some o) = o

abbrev pub create : {A : Type 0} → List ℕ → State A → Option ℕ × State A
create n s =
    let o = object_of s (lookup_name s.names n) in
    (
      some (unused s.fds),
      record s { fds = (unused s.fds, some o) ∷ s.fds; names = (n, some o) ∷ s.names },
    )

abbrev pub open_as : {A : Type 0} → State A → Option ℕ → Option ℕ × State A
open_as s none = (none, s)
open_as s (some o) = (some (unused s.fds), record s { fds = (unused s.fds, some o) ∷ s.fds })

abbrev pub map_as : {A : Type 0} → State A → Option ℕ → Option ℕ × State A
map_as s none = (none, s)
map_as s (some o) = (some (unused s.maps), record s { maps = (unused s.maps, some o) ∷ s.maps })

abbrev pub change : {A : Type 0} → (RingBuffer A → RingBuffer A) → State A → Option ℕ → State A
change f s none = s
change f s (some o) = record s { rings = set s.rings o (f (s.rings o)) }

abbrev pub ring_of : {A : Type 0} → A → State A → Option ℕ → RingBuffer A
ring_of blank s none = rb_init blank
ring_of blank s (some o) = s.rings o

abbrev pub small : {A : Type 0} → A → Shm A
small {A = A} blank = record {
  World = State A;
  shm_unlink = λ n s. record s { names = (n, none) ∷ s.names };
  shm_create = create;
  shm_open = λ n s. open_as s (lookup_name s.names n);
  fchmod = λ fd s. (false, s);
  ftruncate = λ fd s. (true, change (λ r. rb_init blank) s (lookup s.fds fd));
  mmap = λ fd s. map_as s (lookup s.fds fd);
  munmap = λ a s. record s { maps = (a, none) ∷ s.maps };
  close = λ fd s. record s { fds = (fd, none) ∷ s.fds };
  load = λ a s. ring_of blank s (lookup s.maps a);
  store = λ a f s. change f s (lookup s.maps a);
  view = λ s. record {
    fds = lookup s.fds;
    names = lookup_name s.names;
    maps = lookup s.maps;
    rings = s.rings;
  };
}

unused_pos : (es : List (ℕ × Option ℕ)) → 0 < unused es
unused_pos [] = omega arith
unused_pos (e ∷ es) = omega (arith, unused_pos es)

lookup-unused : (es : List (ℕ × Option ℕ)) (k : ℕ) → lookup es (unused es + k) ≡ none
lookup-unused [] k = refl
lookup-unused ((i, o) ∷ es) k =
    let behind : i + unused es + k ≡ unused es + (i + k) = omega arith in
    set_ne (lookup es) i (i + unused es + k) o (λ e. omega (arith, e, unused_pos es))
    ∙ ap (lookup es) behind
    ∙ lookup-unused es (i + k)

lookup-free : (es : List (ℕ × Option ℕ)) → lookup es (unused es) ≡ none
lookup-free es =
    let e : unused es ≡ unused es + 0 = omega arith in ap (lookup es) e ∙ lookup-unused es 0

not_missing : {n : ℕ} → none ≡ some n → ⊥
not_missing e = grind arith

not_there : {n : ℕ} → some n ≡ none → ⊥
not_there e = grind arith

same : {n m : ℕ} → some n ≡ some m → n ≡ m
same e = grind arith

above-le : (p : Option ℕ) (n o : ℕ) → o < n → o < above p n
above-le none n o h = h
above-le (some p) n o h = omega arith

unused_object_pos : (es : List (ℕ × Option ℕ)) → 0 < unused_object es
unused_object_pos [] = omega arith
unused_object_pos ((i, none) ∷ es) = unused_object_pos es
unused_object_pos ((i, some p) ∷ es) = omega (arith, unused_object_pos es)

above_self : (p : Option ℕ) (n o : ℕ) → 0 < n → p ≡ some o → o < above p n
above_self none n o h e = absurd (not_missing e)
above_self (some p) n o h e = omega (arith, same e)

lookup-lt : (es : List (ℕ × Option ℕ)) (a o : ℕ) → lookup es a ≡ some o → o < unused_object es
lookup-lt [] a o h = absurd (not_missing h)
lookup-lt ((i, p) ∷ es) a o h = elim (eq_cases i a) [
  | inl e ↦
      above_self p (unused_object es) o (unused_object_pos es)
        (sym (set_self (lookup es) i p) ∙ ap (lookup ((i, p) ∷ es)) e ∙ h)
  | inr n ↦
      above-le p (unused_object es) o (lookup-lt es a o (sym (set_ne (lookup es) i a p n) ∙ h))
]

create-IsLinked :
    {A : Type 0} (blank : A) (s : State A) (n : List ℕ) (r : Option ℕ)
    → lookup_name s.names n ≡ r
    → IsLinked (small blank) ((small blank).view s) n (object_of s r)
create-IsLinked blank s n none e =
    inr (e, λ a h. let lt = lookup-lt s.maps a (object_of s none) h in omega arith)
create-IsLinked blank s n (some o) e = inl e

opens-none :
    {A : Type 0} (blank : A) (s : State A) (r : Option ℕ)
    → (open_as s r).0 ≡ none
    → (small blank).view (open_as s r).1 ≡ (small blank).view s
opens-none blank s none h = refl
opens-none blank s (some o) h = absurd (not_there h)

opens-some :
    {A : Type 0} (blank : A) (s : State A) (r : Option ℕ) (fd : ℕ)
    → (open_as s r).0 ≡ some fd
    → (o : ℕ) × (lookup s.fds fd ≡ none)
      × (r ≡ some o)
      × ((small blank).view (open_as s r).1
          ≡ record ((small blank).view s) { fds = set (lookup s.fds) fd (some o) })
opens-some blank s none fd h = absurd (not_missing h)
opens-some blank s (some o) fd h = (
  o,
  ap (lookup s.fds) (sym (same h)) ∙ lookup-free s.fds,
  refl,
  ap (λ i. record ((small blank).view s) { fds = set (lookup s.fds) i (some o) }) (same h),
)

maps-none :
    {A : Type 0} (blank : A) (s : State A) (r : Option ℕ)
    → (map_as s r).0 ≡ none
    → (small blank).view (map_as s r).1 ≡ (small blank).view s
maps-none blank s none h = refl
maps-none blank s (some o) h = absurd (not_there h)

maps-some :
    {A : Type 0} (blank : A) (s : State A) (r : Option ℕ) (o a : ℕ)
    → r ≡ some o
    → (map_as s r).0 ≡ some a
    → (lookup s.maps a ≡ none)
      × ((small blank).view (map_as s r).1
          ≡ record ((small blank).view s) { maps = set (lookup s.maps) a (some o) })
maps-some blank s none o a e h = absurd (not_missing h)
maps-some blank s (some p) o a e h = (
  ap (lookup s.maps) (sym (same h)) ∙ lookup-free s.maps,
  ap (λ i. record ((small blank).view s) { maps = set (lookup s.maps) i (some p) }) (same h)
      ∙ ap (λ i. record ((small blank).view s) { maps = set (lookup s.maps) a i }) e,
)

pub small_laws : {A : Type 0} (blank : A) → ShmLaws (small blank)
small_laws blank = record {
  unlink = λ n s. refl;
  create_none = λ n s h. absurd (not_there h);
  create_some = λ n s fd h. (
    object_of s (lookup_name s.names n),
    ap (lookup s.fds) (sym (same h)) ∙ lookup-free s.fds,
    create-IsLinked blank s n (lookup_name s.names n) refl,
    ap
        (λ i. record ((small blank).view s) {
          fds = set (lookup s.fds) i (some (object_of s (lookup_name s.names n)));
          names = set_name (lookup_name s.names) n (some (object_of s (lookup_name s.names n)));
        })
        (same h),
  );
  open_none = λ n s h. opens-none blank s (lookup_name s.names n) h;
  open_some = λ n s fd h. opens-some blank s (lookup_name s.names n) fd h;
  chmod = λ fd s. refl;
  truncate =
      λ fd s o e. (rb_init blank, ap (λ r. (small blank).view (change (λ _. rb_init blank) s r)) e);
  mmap_none = λ fd s h. maps-none blank s (lookup s.fds fd) h;
  mmap_some = λ fd s o a e h. maps-some blank s (lookup s.fds fd) o a e h;
  unmap = λ a s. refl;
  closes = λ fd s. refl;
  loads = λ a s o e. ap (ring_of blank s) e;
  stores = λ a f s o e. ap (λ r. (small blank).view (change f s r)) e;
}
