-- ===== src/Lru/Tests.antt =====
-- The properties of the cache at concrete inputs.
use fapolicyd.Prelude.{ℕ, ◌≡◌, refl, [], ◌∷◌, arith}
use fapolicyd.Lru.{Lru, init_lru, check_lru_cache, lru_evict}
use fapolicyd.Lru.Inv.{IsValid, init_lru-IsValid}
use fapolicyd.Lru.Lookup.{OutcomeServes, check_lru_cache-Serves}
use fapolicyd.Lru.Evict.{OutcomeEvicts, lru_evict-check_lru_cache}

-- Two slots, both looked up, so that the cache is full and slot 0 is not in front.
abbrev full : Lru ℕ
full =
    let (q, front, eviction) = check_lru_cache (init_lru 2) 0 in
    let (q', front', eviction') = check_lru_cache q 1 in q'

full-IsValid : IsValid full
unfolding check_lru_cache init_lru
full-IsValid =
    let first =
      check_lru_cache-Serves (init_lru 2) 0 (init_lru-IsValid 2 (omega arith)) (omega arith) in
    let (q, front, eviction) = check_lru_cache {A = ℕ} (init_lru 2) 0 in
    (check_lru_cache-Serves q 1 first.valid (omega (arith, first.sized))).valid

full_nodes : full.nodes ≡ 0 ∷ 1 ∷ []
unfolding check_lru_cache init_lru
full_nodes = refl

check_lru_cache-Serves_example :
    OutcomeServes (init_lru {A = ℕ} 2) 1 (check_lru_cache (init_lru 2) 1)
unfolding init_lru
check_lru_cache-Serves_example =
    check_lru_cache-Serves (init_lru {A = ℕ} 2) 1 (init_lru-IsValid 2 (omega arith)) (omega arith)

lru_evict-check_lru_cache_example :
    let (q, front, eviction) = check_lru_cache full 0 in OutcomeEvicts full 0 (lru_evict q 0)
unfolding check_lru_cache init_lru
lru_evict-check_lru_cache_example = lru_evict-check_lru_cache full 0 full-IsValid (omega arith)
