-- ===== src/Examples/Running.antt =====
-- The theorems on the pool of sandboxes and on clearing directories, at concrete values.
use kilonova.Prelude.{
  ℕ, ◌+◌, ◌-◌, ◌*◌, ◌≤◌, ◌≡◌, refl, none, some, List, [], ◌∷◌, arith, leb, if◌then◌else◌, length,
  sum,
}
use kilonova.Prelude.Int.{pos}
use kilonova.Status.{Result, plain, ok, err}
use kilonova.Scheduler.{
  Semaphore, SemaphoreLaws, Box, new_manager, take_memory, take_box, Pool, Step, Reachable,
  id_range,
}
use kilonova.Scheduler.Counting.{occurrences, holders, total_quota}
use kilonova.Scheduler.Boxes.{boxes_unshared, quotas_fit, ids_accounted}
use kilonova.Evict.{Entry, total_size, sweep}
use kilonova.Evict.Sweeping.{Fresh, sweep_within_limits}

record Weights : Type 0 where
  size : ℕ
  used : ℕ

abbrev acquire_weight : Weights → ℕ → Result Weights
acquire_weight w n =
    if leb (w.used + n) w.size then ok (record w { used = w.used + n }) else err (plain "full")

abbrev counting : Semaphore
counting = record {
  S = Weights;
  new_weighted = λ n. record { size = n; used = 0 };
  acquire = acquire_weight;
  release = λ w n. record w { used = w.used - n };
  size = λ w. w.size;
  used = λ w. w.used;
}

counting_laws : SemaphoreLaws counting
counting_laws = record {
  size-new_weighted = λ n. refl;
  used-new_weighted = λ n. refl;
  size-acquire = λ s t n h. ground arith;
  used-acquire = λ s t n h. ground arith;
  acquire-fits = λ s t n h. ground arith;
  size-release = λ s n. refl;
  used-release = λ s n h. refl;
}

abbrev make_box : ℕ → ℕ → Result Box
make_box id quota = ok (record { id = id; memory_quota = quota })

abbrev fresh_pool : Pool counting
fresh_pool = record {
  manager = new_manager counting (pos 10) 2 512 (some make_box);
  waiting = [];
  in_use = [];
  lost_ids = 0;
  lost_quota = 0;
}

abbrev waiting_pool : Pool counting
waiting_pool = record fresh_pool {
  manager = record fresh_pool.manager { mem_sem = record { size = 512; used = 300 } };
  waiting = 300 ∷ [];
}

abbrev running_pool : Pool counting
running_pool = record waiting_pool {
  manager = record waiting_pool.manager { available_ids = 12 ∷ 13 ∷ 14 ∷ [] };
  waiting = [];
  in_use = record { id = 11; memory_quota = 300 } ∷ [];
}

abbrev Served : Pool counting → Type 0
Served p = Reachable counting (pos 10) 2 512 make_box p

running_pool-Served : Served running_pool
unfolding take_memory new_manager take_box id_range
running_pool-Served =
    Reachable.then_step waiting_pool running_pool
      (Reachable.then_step fresh_pool waiting_pool Reachable.new
        (Step.acquires 300 waiting_pool.manager refl))
      (Step.starts [] [] 300 running_pool.manager (record { id = 11; memory_quota = 300 }) refl
        refl)

boxes_unshared_example :
    occurrences 11 running_pool.manager.available_ids + holders 11 running_pool.in_use ≤ 1
boxes_unshared_example =
    boxes_unshared counting counting_laws (pos 10) 2 512 make_box running_pool
      (λ id q b h. (ground arith, ground arith)) running_pool-Served 11

quotas_fit_example : sum running_pool.waiting + total_quota running_pool.in_use ≤ 512
quotas_fit_example =
    quotas_fit counting counting_laws (pos 10) 2 512 make_box running_pool
      (λ id q b h. (ground arith, ground arith)) running_pool-Served

ids_accounted_example :
    (length running_pool.manager.available_ids + length running_pool.in_use + running_pool.lost_ids
      ≡ 2 * 2)
    × (length running_pool.manager.available_ids ≤ 3 * 2)
ids_accounted_example =
    ids_accounted counting counting_laws (pos 10) 2 512 make_box running_pool
      (λ id q b h. (ground arith, ground arith)) running_pool-Served

abbrev cache : List Entry
cache =
    record { name = "new"; mod_time = 9_000_000_000; size = 1500 }
    ∷ record { name = "old"; mod_time = 1_000_000_000; size = 400 }
    ∷ record { name = "mid"; mod_time = 8_000_000_000; size = 700 }
    ∷ []

sweep_within_limits_example :
    let left = (sweep (ok cache) (λ name. none) 9_500_000_000 2000 5_000_000_000).0 in
    (total_size left ≤ 2000) × Fresh (λ name. none) 9_500_000_000 2000 5_000_000_000 left
unfolding sweep
sweep_within_limits_example =
    sweep_within_limits (λ name. none) 9_500_000_000 2000 5_000_000_000 cache (omega arith)
      (omega arith) refl
