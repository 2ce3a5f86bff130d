-- ===== src/Monitor/FastPath/Entries.antt =====
-- What the fast path pushes, as a list, and the states of the arrays that it cannot tell apart.
use capstone_monitor.Base.{
  ℕ, zero, suc, ◌/◌, ◌%◌, ◌^◌, ◌≡◌, refl, ◌∙◌, Bool, leb, ◌&&◌, ◌||◌, not, List, [], ◌∷◌, ◌++◌,
  if◌then◌else◌, ◌==◌, set, set_cell, set-absorb, set_cell-absorb,
}
use capstone_monitor.Metrics.{SmoothedMetrics}
use capstone_monitor.Monitor.{Tables, CoreConfig, pc_idx}
use capstone_monitor.PerfCounter.{sub64}
use capstone_monitor.Monitor.FastPath.{stamp}

-- whether a sample is at most half a second old, in nanoseconds of 64 bits
abbrev pub is_recent : ℕ → ℕ → Bool
is_recent now timestamp = leb (sub64 now timestamp) 500000000

-- whether a mask stands for all cores, or has the binary digit of the core
unfoldable pub is_wanted : ℕ → ℕ → Bool
is_wanted mask c = mask == 0 || not (mask / 2 ^ c % 2 == 0)

-- the lists of the rounds of a loop, in order
unfoldable pub concat_below {ℓ} : {A : Type ℓ} → ℕ → (ℕ → List A) → List A
concat_below zero f = []
concat_below (suc n) f = concat_below n f ++ f n

-- the entry of one core, if the core is selected, its cache holds a sample, which is one of a pid
-- other than 0, and that sample is recent
unfoldable pub core_entry :
    {D : Type 0} → ℕ → Bool → ℕ → SmoothedMetrics D → List (SmoothedMetrics D)
core_entry now selected timestamp m =
    if (selected && not (m.pid == 0)) && is_recent now timestamp then m ∷ [] else []

-- the entries of one slot, if it was sampled lately: its own and those of its cores
unfoldable pub slot_entry :
    {D : Type 0}
    → ℕ
    → Bool
    → ℕ
    → SmoothedMetrics D
    → List (SmoothedMetrics D)
    → List (SmoothedMetrics D)
slot_entry now valid timestamp m cores = if valid && is_recent now timestamp then m ∷ cores else []

module _ {D : Type 0} (cfg : CoreConfig) (now : ℕ) where
  abbrev pub core_entries : Tables D → ℕ → ℕ → List (SmoothedMetrics D)
  core_entries t i c =
      core_entry now (is_wanted cfg.per_core_mask c) (t.last_sm_pc_timestamp (pc_idx i c))
        (stamp now (t.last_sm_pc i c))

  abbrev pub slot_entries : Tables D → ℕ → List (SmoothedMetrics D)
  slot_entries t i =
      slot_entry now (t.last_sm_valid i) (t.last_sm_timestamp i) (stamp now (t.last_sm i))
        (if cfg.per_core then concat_below cfg.ncores (core_entries t i) else [])

  unfoldable pub entries : Tables D → List (SmoothedMetrics D)
  entries t = concat_below t.n_active (slot_entries t)

  -- Two states of the arrays that the fast path cannot tell apart.
  pub record Same (t u : Tables D) : Type 0 where
    pub n_active : u.n_active ≡ t.n_active
    pub valid : u.last_sm_valid ≡ t.last_sm_valid
    pub timestamp : u.last_sm_timestamp ≡ t.last_sm_timestamp
    pub pc_timestamp : u.last_sm_pc_timestamp ≡ t.last_sm_pc_timestamp
    pub metrics : (i : ℕ) → stamp now (u.last_sm i) ≡ stamp now (t.last_sm i)
    pub pc_metrics : (i c : ℕ) → stamp now (u.last_sm_pc i c) ≡ stamp now (t.last_sm_pc i c)

  pub core_entries-Same :
      (t u : Tables D) (i c : ℕ) → Same t u → core_entries u i c ≡ core_entries t i c
  core_entries-Same t u i c s = λ j.
      core_entry now (is_wanted cfg.per_core_mask c) (s.pc_timestamp j (pc_idx i c))
        (s.pc_metrics i c j)

  pub slot_entries-Same : (t u : Tables D) (i : ℕ) → Same t u → slot_entries u i ≡ slot_entries t i
  slot_entries-Same t u i s = λ j.
      slot_entry now (s.valid j i) (s.timestamp j i) (s.metrics i j)
        (if cfg.per_core then concat_below cfg.ncores (λ c. core_entries-Same t u i c s j) else [])

  pub Same-refl : (t : Tables D) → Same t t
  Same-refl t = record {
    n_active = refl;
    valid = refl;
    timestamp = refl;
    pc_timestamp = refl;
    metrics = λ i. refl;
    pc_metrics = λ i c. refl;
  }

  -- A timestamp that is overwritten by another is no difference.
  pub stamp_slot-Same :
      (t u : Tables D) (i : ℕ)
      → Same t u
      → Same t (record u { last_sm = set u.last_sm i (stamp now (u.last_sm i)) })
  stamp_slot-Same t u i s = record {
    n_active = s.n_active;
    valid = s.valid;
    timestamp = s.timestamp;
    pc_timestamp = s.pc_timestamp;
    metrics = λ k. set-absorb (stamp now) u.last_sm i k _ refl ∙ s.metrics k;
    pc_metrics = s.pc_metrics;
  }

  pub stamp_core-Same :
      (t u : Tables D) (i c : ℕ)
      → Same t u
      → Same t (record u { last_sm_pc = set_cell u.last_sm_pc i c (stamp now (u.last_sm_pc i c)) })
  stamp_core-Same t u i c s = record {
    n_active = s.n_active;
    valid = s.valid;
    timestamp = s.timestamp;
    pc_timestamp = s.pc_timestamp;
    metrics = s.metrics;
    pc_metrics = λ k l. set_cell-absorb (stamp now) u.last_sm_pc i c k l _ refl ∙ s.pc_metrics k l;
  }
