-- ===== src/BpfMap.antt =====
-- The maps of type BPF_MAP_TYPE_HASH that the eBPF programs and the daemon share, as an interface:
-- the helpers bpf_map_lookup_elem, bpf_map_update_elem and bpf_map_delete_elem, whose results the
-- programs ignore, and a store through the pointer that a lookup returns. The laws are a record of
-- their own; they are what bpf(2) and bpf-helpers(7) say of a hash map with a bound on its entries.
use capstone_monitor.Base.{ℕ, ◌≡◌, ◌≢◌, Bool, false, Option, none, some}

-- the flag of an update: BPF_ANY or BPF_NOEXIST
pub data UpdateFlag : Type 0 where
  any noexist : UpdateFlag

pub record BpfMap (V : Type 0) : Type 1 where
  pub State : Type 0
  pub lookup : ℕ → State → Option V
  pub update : UpdateFlag → ℕ → V → State → State
  pub delete : ℕ → State → State
  -- `*bpf_map_lookup_elem(&map, &key) = value`
  pub store : ℕ → V → State → State
  -- whether `max_entries` is reached
  pub is_full : State → Bool

pub record IsHashMap {V : Type 0} (map : BpfMap V) : Type 0 where
  -- no operation touches another key
  pub update_other :
      (f : UpdateFlag) (k j : ℕ) (v : V) (s : map.State)
      → k ≢ j
      → map.lookup j (map.update f k v s) ≡ map.lookup j s
  pub delete_other :
      (k j : ℕ) (s : map.State) → k ≢ j → map.lookup j (map.delete k s) ≡ map.lookup j s
  pub store_other :
      (k j : ℕ) (v : V) (s : map.State) → k ≢ j → map.lookup j (map.store k v s) ≡ map.lookup j s
  -- an existing key: BPF_ANY replaces its value, BPF_NOEXIST fails
  pub update_any :
      (k : ℕ) (u v : V) (s : map.State)
      → map.lookup k s ≡ some u
      → map.lookup k (map.update UpdateFlag.any k v s) ≡ some v
  pub update_noexist :
      (k : ℕ) (u v : V) (s : map.State)
      → map.lookup k s ≡ some u
      → map.lookup k (map.update UpdateFlag.noexist k v s) ≡ some u
  -- a new key is added while there is room
  pub update_new :
      (f : UpdateFlag) (k : ℕ) (v : V) (s : map.State)
      → map.lookup k s ≡ none
      → map.is_full s ≡ false
      → map.lookup k (map.update f k v s) ≡ some v
  pub delete_self : (k : ℕ) (s : map.State) → map.lookup k (map.delete k s) ≡ none
  pub store_self :
      (k : ℕ) (u v : V) (s : map.State)
      → map.lookup k s ≡ some u
      → map.lookup k (map.store k v s) ≡ some v
