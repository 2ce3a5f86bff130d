-- ===== src/Monitor/Notify/Sent.antt =====
-- Which socket `sd_notify_ready` of final/src/monitor_final.c addresses, and what it leaves open.
use capstone_monitor.Base.{
  ℕ, zero, suc, ◌+◌, ◌-◌, ◌≤◌, ◌≡◌, ◌≢◌, refl, sym, ap, ◌∙◌, Bool, true, false, ◌||◌, ◌&&◌, not,
  Option, none, some, List, [], ◌∷◌, ◌++◌, ◌==◌, length, replicate, take, elem, elem-append, codes,
  c_text, ==→eq, arith,
}
use mathlib.Core.Path.{subst}
use capstone_monitor.EbpfTracer.Lifecycle.Held.{given_back}
use capstone_monitor.Monitor.Notify.{Sockets, strncpy, sun_path, address, notify, sd_notify_ready}

c_text-strncpy :
    (n : ℕ) (s t : List ℕ) → elem 0 s ≡ false → c_text (strncpy n s ++ 0 ∷ t) ≡ take n s
unfolding strncpy
c_text-strncpy zero s t h = refl
c_text-strncpy (suc n) [] t h = refl
c_text-strncpy (suc n) (c ∷ s) t h =
    let other : (c == 0) ≡ false = ground (arith, h) in
    let more : elem 0 s ≡ false = ground (arith, h) in
    rw other (ap (◌∷◌ c) (c_text-strncpy n s t more))

-- The address of a socket at a path, which neither is empty nor starts with `@`, is this path, cut at
-- 107 bytes.
pub c_text-sun_path :
    (c : ℕ) (s : List ℕ)
    → (c == b'@') ≡ false
    → elem 0 (c ∷ s) ≡ false
    → c_text (sun_path (c ∷ s)) ≡ take 107 (c ∷ s)
unfolding sun_path
c_text-sun_path c s h plain = rw h (c_text-strncpy 107 (c ∷ s) [] plain)

-- unix(7): the name of an abstract socket, whose path starts with a NUL, is all bytes behind it that
-- the length of the address covers, which counts the 2 bytes of the family
abbrev pub abstract_name : List ℕ × ℕ → List ℕ
abstract_name a = behind (take (a.1 - 2) a.0)
  where
    behind : List ℕ → List ℕ
    behind [] = []
    behind (c ∷ s) = s

strncpy-nil : (n : ℕ) → (strncpy n [] ++ 0 ∷ []) ≡ replicate (suc n) 0
unfolding strncpy
strncpy-nil zero = refl
strncpy-nil (suc n) = ap (◌∷◌ 0) (strncpy-nil n)

-- What strncpy copies, and the zeros behind it with one more.
strncpy-zeros :
    (n k : ℕ) (s : List ℕ)
    → k + length (take n s) ≡ suc n
    → (strncpy n s ++ 0 ∷ []) ≡ (take n s ++ replicate k 0)
unfolding strncpy
strncpy-zeros zero k s h = let one : 1 ≡ k = omega (arith, h) in ap (λ m. replicate m 0) one
strncpy-zeros (suc n) k [] h =
    let whole : suc (suc n) ≡ k = omega (arith, h) in
    strncpy-nil (suc n) ∙ ap (λ m. replicate m 0) whole
strncpy-zeros (suc n) k (c ∷ s) h = ap (◌∷◌ c) (strncpy-zeros n k s (omega (arith, h)))

take-strncpy : (n : ℕ) (s : List ℕ) → take (suc n) (strncpy n s ++ 0 ∷ []) ≡ (strncpy n s ++ 0 ∷ [])
unfolding strncpy
take-strncpy zero s = refl
take-strncpy (suc n) [] = ap (◌∷◌ 0) (take-strncpy n [])
take-strncpy (suc n) (c ∷ s) = ap (◌∷◌ c) (take-strncpy n s)

length-take_le : (n : ℕ) (s : List ℕ) → length (take n s) ≤ n
length-take_le zero s = omega arith
length-take_le (suc n) [] = omega arith
length-take_le (suc n) (c ∷ s) = omega (arith, length-take_le n s)

-- By unix(7), the name that is addressed for `@name`, with a name without NUL as it comes from the
-- environment, is the name, cut at 106 bytes, with NUL bytes behind it up to 107 bytes in all. So it
-- is never the name itself.
pub address-abstract :
    (name : List ℕ)
    → elem 0 name ≡ false
    → (abstract_name (address (b'@' ∷ name))
        ≡ take 106 name ++ replicate (107 - length (take 106 name)) 0)
      × (abstract_name (address (b'@' ∷ name)) ≢ name)
unfolding address sun_path
address-abstract name plain = (
  padded,
  λ e. no_path (
      sym plain
      ∙ ap (elem 0) (sym (sym (take-strncpy 106 name) ∙ e))
      ∙ elem-append 0 (strncpy 106 name) (0 ∷ [])
      ∙ or_true (elem 0 (strncpy 106 name))),
)
  where
    padded :
        take 107 (strncpy 106 name ++ 0 ∷ [])
        ≡ take 106 name ++ replicate (107 - length (take 106 name)) 0
    padded =
        take-strncpy 106 name
        ∙ strncpy-zeros 106 (107 - length (take 106 name)) name
            (omega (arith, length-take_le 106 name))

    no_path : false ≡ true → ⊥
    no_path q = grind arith

    or_true : (b : Bool) → (b || true) ≡ true
    or_true b = ground arith

module _ (sockets : Sockets) where
  open sockets use {World, socket, sendto, close, is_open}

  -- what the manual pages say of the descriptors
  pub record SocketLaws : Type 0 where
    pub socket_none :
        (w : World) (k : ℕ) → (socket w).0 ≡ none → is_open (socket w).1 k ≡ is_open w k
    pub socket_some :
        (w : World) (fd k : ℕ)
        → (socket w).0 ≡ some fd
        → is_open (socket w).1 k ≡ (fd == k || is_open w k)
    pub socket_fresh : (w : World) (fd : ℕ) → (socket w).0 ≡ some fd → is_open w fd ≡ false
    pub sends :
        (fd : ℕ) (to : List ℕ × ℕ) (msg : List ℕ) (w : World) (k : ℕ)
        → is_open (sendto fd to msg w).1 k ≡ is_open w k
    pub closes :
        (fd : ℕ) (w : World) (k : ℕ) → is_open (close fd w) k ≡ (not (fd == k) && is_open w k)

  -- The notification leaves no descriptor open, whatever the environment and whether or not the socket
  -- is there and the message is taken.
  pub sd_notify_ready-is_open :
      (laws : SocketLaws) (env : Option (List ℕ)) (w : World) (k : ℕ)
      → is_open (sd_notify_ready sockets env w) k ≡ is_open w k
  unfolding sd_notify_ready notify
  sd_notify_ready-is_open laws none w k = refl
  sd_notify_ready-is_open laws (some []) w k = refl
  sd_notify_ready-is_open laws (some (c ∷ s)) w k = by_socket (socket w).0 refl
    where
      sent : ℕ → World
      sent fd = (sendto fd (address (c ∷ s)) (codes "READY=1") (socket w).1).1

      by_socket :
          (r : Option ℕ)
          → (socket w).0 ≡ r
          → is_open (elim r [ none ↦ (socket w).1 | some fd ↦ close fd (sent fd) ]) k ≡ is_open w k
      by_socket none h = laws.socket_none w k h
      by_socket (some fd) h =
          laws.closes fd (sent fd) k
          ∙ ap (λ b. not (fd == k) && b)
              (laws.sends fd (address (c ∷ s)) (codes "READY=1") (socket w).1 k
                ∙ laws.socket_some w fd k h)
          ∙ given_back (fd == k) (is_open w k)
              (λ e. subst (λ j. is_open w j ≡ false) (==→eq fd k e) (laws.socket_fresh w fd h))
