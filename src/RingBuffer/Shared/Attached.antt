-- ===== src/RingBuffer/Shared/Attached.antt =====
-- What `rb_attach_named` and `rb_destroy_named` of final/src/ring_buffer.c leave, on every path, and
-- how the two processes meet in one ring.
use capstone_monitor.Base.{
  ℕ, ◌≡◌, ◌≢◌, refl, sym, ap, ◌∙◌, false, Option, none, some, List, set, set_self, set_ne,
  same_text, arith,
}
use capstone_monitor.RingBuffer.{rb_init}
use capstone_monitor.RingBuffer.Shared.{
  mmap_shm, map_old, rb_create_named, rb_attach_named, rb_destroy_named,
}
use capstone_monitor.RingBuffer.Shared.Views.{set_name_self, set_name_other, close-view}
use capstone_monitor.RingBuffer.Shared.Created.{rb_create_named-IsCreated}
use capstone_monitor.Shm.{View, set_name, Shm, ShmLaws}

-- From the view `v` to the view `u`, with the result `r`: but for a new mapping of the object that
-- has the name, nothing has changed; without such an object there is no result.
pub record IsAttached {A : Type 0} (name : List ℕ) (v : View A) (r : Option ℕ) (u : View A)
    : Type 0 where
  pub missing : v.names name ≡ none → r ≡ none
  pub failed : r ≡ none → u ≡ v
  pub made :
      (b : ℕ)
      → r ≡ some b
      → (o : ℕ) × (v.names name ≡ some o)
        × (v.maps b ≡ none)
        × (u ≡ record v { maps = set v.maps b (some o) })

not_missing : {n : ℕ} → none ≡ some n → ⊥
not_missing e = grind arith

same : {n m : ℕ} → some n ≡ some m → n ≡ m
same e = grind arith

module _ {A : Type 0} (shm : Shm A) (laws : ShmLaws shm) where
  open shm use {World, shm_unlink, shm_open, mmap, munmap, close, load, store, view}

  map_old-IsAttached :
      (name : List ℕ) (v : View A) (fd o : ℕ) (w : World)
      → v.fds fd ≡ none
      → v.names name ≡ some o
      → view w ≡ record v { fds = set v.fds fd (some o) }
      → let r = map_old shm fd w in IsAttached name v r.0 (view r.1)
  unfolding map_old mmap_shm
  map_old-IsAttached name v fd o w closed own e = by_map (mmap fd w).0 refl
    where
      w' : World
      w' = close fd (mmap fd w).1

      by_map : (m : Option ℕ) → (mmap fd w).0 ≡ m → IsAttached name v m (view w')
      by_map none h = record {
        missing = λ n. refl;
        failed = λ n. close-view shm laws v v.fds fd (some o) _ closed (laws.mmap_none fd w h ∙ e);
        made = λ b n. absurd (not_missing n);
      }
      by_map (some a) h =
          let q =
            laws.mmap_some fd w o a (ap (λ (s : View A). s.fds fd) e ∙ set_self v.fds fd (some o))
              h in
          record {
            missing = λ n. absurd (not_missing (sym n ∙ own));
            failed = λ n. absurd (not_missing (sym n));
            made = λ b n. (
              o,
              own,
              ap v.maps (sym (same n)) ∙ ap (λ (s : View A). s.maps a) (sym e) ∙ q.0,
              close-view shm laws (record v { maps = set v.maps a (some o) }) v.fds fd (some o) _
                    closed (q.1 ∙ ap (λ (s : View A). record s { maps = set s.maps a (some o) }) e)
                  ∙ ap (λ i. record v { maps = set v.maps i (some o) }) (same n),
            );
          }

  -- Attaching to a ring: but for a new mapping of the object that has the name, nothing changes, and
  -- without such an object the call fails.
  pub rb_attach_named-IsAttached :
      (name : List ℕ) (w : World)
      → let r = rb_attach_named shm name w in IsAttached name (view w) r.0 (view r.1)
  unfolding rb_attach_named
  rb_attach_named-IsAttached name w = by_open (shm_open name w).0 refl
    where
      w1 : World
      w1 = (shm_open name w).1

      P : Option ℕ × World → Type 0
      P r = IsAttached name (view w) r.0 (view r.1)

      by_open :
          (r : Option ℕ)
          → (shm_open name w).0 ≡ r
          → P (elim r [ none ↦ (none, w1) | some fd ↦ map_old shm fd w1 ])
      by_open none h = record {
        missing = λ n. refl;
        failed = λ n. laws.open_none name w h;
        made = λ b n. absurd (not_missing n);
      }
      by_open (some fd) h =
          let q = laws.open_some name w fd h in
          map_old-IsAttached name (view w) fd q.0 w1 q.1 q.2 q.3

  pub rb_destroy_named-view :
      (rb : ℕ) (name : List ℕ) (w : World)
      → view (rb_destroy_named shm rb name w) ≡ record (view w) {
        maps = set (view w).maps rb none;
        names = set_name (view w).names name none;
      }
  unfolding rb_destroy_named
  rb_destroy_named-view rb name w =
      laws.unlink name (munmap rb w)
      ∙ ap (λ (s : View A). record s { names = set_name s.names name none }) (laws.unmap rb w)

  -- Behind `rb_destroy_named` attaching to the name fails and changes nothing; the other names, the
  -- other mappings and what the rings hold, also for those who are still attached to the ring, are
  -- as before.
  pub attach-rb_destroy_named :
      (rb : ℕ) (name : List ℕ) (w : World)
      → let u = rb_destroy_named shm rb name w in
        ((rb_attach_named shm name u).0 ≡ none)
        × (view (rb_attach_named shm name u).1 ≡ view u)
        × ((m : List ℕ) → same_text name m ≡ false → (view u).names m ≡ (view w).names m)
        × ((b : ℕ) → rb ≢ b → (view u).maps b ≡ (view w).maps b)
        × ((view u).rings ≡ (view w).rings)
  attach-rb_destroy_named rb name w =
      let u = rb_destroy_named shm rb name w in
      let e = rb_destroy_named-view rb name w in
      let t = rb_attach_named-IsAttached name u in
      let gone =
        t.missing (ap (λ (s : View A). s.names name) e ∙ set_name_self (view w).names name none) in
      (
        gone,
        t.failed gone,
        λ m d. ap (λ (s : View A). s.names m) e ∙ set_name_other (view w).names name m none d,
        λ b n. ap (λ (s : View A). s.maps b) e ∙ set_ne (view w).maps rb b none n,
        ap (λ (s : View A). s.rings) e,
      )

  -- A process that attaches to a ring behind its creation meets the creator there: the two mappings
  -- are of one object, which holds the empty ring, and stay apart.
  pub attach-create :
      (blank : A) (name : List ℕ) (w : World) (a b : ℕ)
      → let c = rb_create_named shm blank name w in
        let t = rb_attach_named shm name c.1 in
        c.0 ≡ some a
        → t.0 ≡ some b
        → (o : ℕ) × ((view t.1).maps a ≡ some o)
          × ((view t.1).maps b ≡ some o)
          × ((view t.1).rings o ≡ rb_init blank)
          × (a ≢ b)
  attach-create blank name w a b ha hb =
      let c = rb_create_named shm blank name w in
      let t = rb_attach_named shm name c.1 in
      let v = view c.1 in
      let made = (rb_create_named-IsCreated shm laws blank name w).made a ha in
      let attached = (rb_attach_named-IsAttached name c.1).made b hb in
      let o = made.0 in
      let e = attached.3 in
      let apart : a ≢ b = λ q. not_missing (sym attached.2 ∙ ap v.maps (sym q) ∙ made.4) in
      (
        o,
        ap (λ (s : View A). s.maps a) e
            ∙ set_ne v.maps b a (some attached.0) (λ q. apart (sym q))
            ∙ made.4,
        ap (λ (s : View A). s.maps b) e
            ∙ set_self v.maps b (some attached.0)
            ∙ sym attached.1
            ∙ made.3,
        ap (λ (s : View A). s.rings o) e ∙ made.5,
        apart,
      )
