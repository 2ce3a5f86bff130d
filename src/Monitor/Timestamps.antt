-- ===== src/Monitor/Timestamps.antt =====
-- The flat array `g_last_sm_pc_timestamp` of final/src/monitor_final.c under the swap of two slots.
use capstone_monitor.Base.{
  ℕ, zero, suc, ◌≤◌, ◌<◌, ◌≡◌, ◌≢◌, refl, sym, ap, ◌∙◌, inl, inr, Array, set, set_self, set_ne,
  for_below, arith, eq_cases,
}
use capstone_monitor.Monitor.{max_cores, pc_idx}
use capstone_monitor.Monitor.Slots.{swap_timestamps}

pub pc_idx-ne_row : (i j c k : ℕ) → c < max_cores → k < max_cores → i ≢ j → pc_idx i c ≢ pc_idx j k
pc_idx-ne_row i j c k hc hk h e = h (omega arith)

module _ (i last : ℕ) (ne : i ≢ last) where
  -- An entry that no round touches keeps its value.
  swap-other :
      (n k : ℕ) (a : Array ℕ)
      → ((c : ℕ) → c < n → pc_idx i c ≢ k)
      → ((c : ℕ) → c < n → pc_idx last c ≢ k)
      → for_below n (swap_timestamps i last) a k ≡ a k
  unfolding for_below
  swap-other zero k a hi hl = refl
  swap-other (suc n) k a hi hl =
      let b = for_below n (swap_timestamps i last) a in
      set_ne (set b (pc_idx i n) (b (pc_idx last n))) (pc_idx last n) k (b (pc_idx i n))
        (hl n (omega arith))
      ∙ set_ne b (pc_idx i n) k (b (pc_idx last n)) (hi n (omega arith))
      ∙ swap-other n k a (λ c h. hi c (omega arith)) (λ c h. hl c (omega arith))

  pub swap-other_slot :
      (n j c : ℕ) (a : Array ℕ)
      → n ≤ max_cores
      → c < max_cores
      → i ≢ j
      → last ≢ j
      → for_below n (swap_timestamps i last) a (pc_idx j c) ≡ a (pc_idx j c)
  swap-other_slot n j c a hn hc hi hl =
      swap-other n (pc_idx j c) a (λ k h. pc_idx-ne_row i j k c (omega arith) hc hi)
        (λ k h. pc_idx-ne_row last j k c (omega arith) hc hl)

  -- The moved slot has the timestamps of the last one.
  pub swap-moved :
      (n c : ℕ) (a : Array ℕ)
      → n ≤ max_cores
      → c < n
      → for_below n (swap_timestamps i last) a (pc_idx i c) ≡ a (pc_idx last c)
  unfolding for_below
  swap-moved zero c a hn h = absurd (omega (arith, h))
  swap-moved (suc n) c a hn h =
      let b = for_below n (swap_timestamps i last) a in
      set_ne (set b (pc_idx i n) (b (pc_idx last n))) (pc_idx last n) (pc_idx i c) (b (pc_idx i n))
        (λ e. ne (omega (arith, e, h, hn)))
      ∙ elim (eq_cases n c) [
        | inl e ↦
            ap (set b (pc_idx i n) (b (pc_idx last n))) (ap (pc_idx i) (sym e))
            ∙ set_self b (pc_idx i n) (b (pc_idx last n))
            ∙ swap-other n (pc_idx last n) a (λ k hk q. ne (omega (arith, q, hk, hn)))
                (λ k hk q. omega (arith, q, hk))
            ∙ ap (λ k. a (pc_idx last k)) e
        | inr other ↦
            set_ne b (pc_idx i n) (pc_idx i c) (b (pc_idx last n)) (λ q. other (omega (arith, q)))
            ∙ swap-moved n c a (omega arith) (omega arith)
      ]
