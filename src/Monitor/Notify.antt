-- ===== src/Monitor/Notify.antt =====
-- `sd_notify_ready` of final/src/monitor_final.c: the message to systemd. A text is the list of its
-- bytes before the NUL; a descriptor of -1 is `none`. The calls of the kernel are parameters.
pub mod Sent
use capstone_monitor.Base.{
  ℕ, zero, suc, Bool, Option, none, some, List, [], ◌∷◌, ◌++◌, ◌==◌, if◌then◌else◌, codes,
}

-- socket(AF_UNIX, SOCK_DGRAM | SOCK_CLOEXEC, 0), sendto and close
pub record Sockets : Type 1 where
  pub World : Type 0
  pub socket : World → Option ℕ × World
  -- the descriptor, the address as the bytes of `sun_path` and the length that is passed, and the
  -- message
  pub sendto : ℕ → List ℕ × ℕ → List ℕ → World → Bool × World
  pub close : ℕ → World → World
  pub is_open : World → ℕ → Bool

-- what strncpy writes for the count `n`
unfoldable pub strncpy : ℕ → List ℕ → List ℕ
strncpy zero s = []
strncpy (suc n) [] = 0 ∷ strncpy n []
strncpy (suc n) (c ∷ s) = c ∷ strncpy n s

-- the 108 bytes of `sun_path`, zeroed before
unfoldable pub sun_path : List ℕ → List ℕ
unfolding strncpy
sun_path [] = strncpy 108 []
sun_path (c ∷ s) = if c == b'@' then 0 ∷ strncpy 106 s ++ 0 ∷ [] else strncpy 107 (c ∷ s) ++ 0 ∷ []

-- the address: `sun_path`, and `sizeof(addr)`, which is 2 bytes for the family and those 108
unfoldable pub address : List ℕ → List ℕ × ℕ
unfolding sun_path
address sock_path = (sun_path sock_path, 110)

module _ (sockets : Sockets) where
  open sockets use {World, socket, sendto, close}

  -- behind the test of the environment
  unfoldable pub notify : List ℕ → World → World
  unfolding address
  notify sock_path w =
      let r = socket w in
      elim r.0 [
        | none ↦ r.1
        | some fd ↦ close fd (sendto fd (address sock_path) (codes "READY=1") r.1).1
      ]

  -- by the value of NOTIFY_SOCKET
  unfoldable pub sd_notify_ready : Option (List ℕ) → World → World
  unfolding notify
  sd_notify_ready none w = w
  sd_notify_ready (some []) w = w
  sd_notify_ready (some (c ∷ s)) w = notify (c ∷ s) w
