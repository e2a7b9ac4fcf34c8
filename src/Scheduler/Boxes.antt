-- ===== src/Scheduler/Boxes.antt =====
-- Ids and memory in every pool that concurrent requests can reach: theorems on Scheduler.antt.
use kilonova.Prelude.{
  ℕ, suc, ◌+◌, ◌*◌, ◌≤◌, ◌≡◌, refl, ◌∙◌, inl, inr, some, List, [], ◌∷◌, ◌++◌, arith, ◌==◌, length,
  length-append, sum,
}
use kilonova.Prelude.Int.{ℤ, pos_part}
use kilonova.Status.{Result, ok, err, Result-cases}
use kilonova.Scheduler.{
  Semaphore, SemaphoreLaws, Box, id_range, BoxManager, new_manager, take_memory, take_box,
  release_box, Pool, Step, Reachable, takes,
}
use kilonova.Scheduler.Counting.{
  one_if, occurrences, holders, total_quota, occurrences-snoc, occurrences-id_range,
  length-id_range, holders-split, total_quota-split, sum-split, length-split,
}

module _ (sem : Semaphore) (laws : SemaphoreLaws sem) where
  open laws use {
    size-new_weighted, used-new_weighted, size-acquire, used-acquire, acquire-fits, size-release,
    used-release,
  }

  -- What holds of a pool with `ids` ids and `memory` to give.
  record IsPool (ids memory : ℕ) (p : Pool sem) : Type 0 where
    unshared : (i : ℕ) → occurrences i p.manager.available_ids + holders i p.in_use ≤ 1
    accounted : length p.manager.available_ids + length p.in_use + p.lost_ids ≡ ids
    quotas : sem.used p.manager.mem_sem ≡ sum p.waiting + total_quota p.in_use + p.lost_quota
    size : sem.size p.manager.mem_sem ≡ memory
    fits : sem.used p.manager.mem_sem ≤ memory

  take_memory-ids :
      (mgr mgr' : BoxManager sem) (q : ℕ)
      → take_memory sem mgr q ≡ ok mgr'
      → mgr'.available_ids ≡ mgr.available_ids
  unfolding take_memory
  take_memory-ids mgr mgr' q h = ground arith

  take_memory-used :
      (mgr mgr' : BoxManager sem) (q : ℕ)
      → take_memory sem mgr q ≡ ok mgr'
      → sem.used mgr.mem_sem ≤ sem.size mgr.mem_sem
      → (sem.used mgr'.mem_sem ≡ sem.used mgr.mem_sem + q)
        × (sem.size mgr'.mem_sem ≡ sem.size mgr.mem_sem)
        × (sem.used mgr'.mem_sem ≤ sem.size mgr.mem_sem)
  unfolding take_memory
  take_memory-used mgr mgr' q h l = elim (Result-cases (sem.acquire mgr.mem_sem q)) [
    | inl (e, r) ↦ (ground arith, ground arith, ground arith)
    | inr (s, r) ↦
        let u = used-acquire mgr.mem_sem s q r in
        let z = size-acquire mgr.mem_sem s q r in
        let f = acquire-fits mgr.mem_sem s q r in (ground arith, ground arith, ground arith)
  ]

  take_box-takes :
      (mgr mgr' : BoxManager sem) (make : ℕ → ℕ → Result Box) (q : ℕ) (r : Result Box)
      → take_box sem mgr make q ≡ takes mgr' r
      → (id : ℕ) × (mgr.available_ids ≡ id ∷ mgr'.available_ids)
        × (mgr'.mem_sem ≡ mgr.mem_sem)
        × (make id q ≡ r)
  unfolding take_box
  take_box-takes mgr mgr' make q r h = by_ids mgr.available_ids refl
    where
      by_ids :
          (ids : List ℕ)
          → mgr.available_ids ≡ ids
          → (id : ℕ) × (mgr.available_ids ≡ id ∷ mgr'.available_ids)
            × (mgr'.mem_sem ≡ mgr.mem_sem)
            × (make id q ≡ r)
      by_ids [] e = ground arith
      by_ids (id ∷ ids) e = (id, ground arith, ground arith, ground arith)

  new-IsPool :
      (start : ℤ) (count memory : ℕ) (make : ℕ → ℕ → Result Box)
      → IsPool (2 * count) memory (record {
        manager = new_manager sem start count memory (some make);
        waiting = [];
        in_use = [];
        lost_ids = 0;
        lost_quota = 0;
      })
  unfolding new_manager occurrences id_range holders total_quota
  new-IsPool start count memory make = record {
    unshared = λ i. omega (arith, occurrences-id_range i (suc (pos_part start)) (2 * count));
    accounted = omega (arith, length-id_range (suc (pos_part start)) (2 * count));
    quotas = used-new_weighted memory;
    size = size-new_weighted memory;
    fits = omega (arith, used-new_weighted memory);
  }

  -- The generator gives a box of the id and the quota that it is asked for.
  abbrev pub Faithful : (ℕ → ℕ → Result Box) → Type 0
  Faithful make = (id q : ℕ) (b : Box) → make id q ≡ ok b → (b.id ≡ id) × (b.memory_quota ≡ q)

  acquires-IsPool :
      (ids memory quota : ℕ) (p : Pool sem) (mgr : BoxManager sem)
      → IsPool ids memory p
      → take_memory sem p.manager quota ≡ ok mgr
      → IsPool ids memory (record p { manager = mgr; waiting = quota ∷ p.waiting })
  acquires-IsPool ids memory quota p mgr v t =
      let same = take_memory-ids p.manager mgr quota t in
      let (used, size, fits) =
        take_memory-used p.manager mgr quota t (omega (arith, v.fits, v.size)) in
      record {
        unshared = λ i. rw same (v.unshared i);
        accounted = rw same v.accounted;
        quotas = omega (arith, used, v.quotas);
        size = size ∙ v.size;
        fits = omega (arith, fits, v.size);
      }

  starts-IsPool :
      (ids memory quota id : ℕ) (p : Pool sem) (mgr : BoxManager sem) (b : Box)
      (before after : List ℕ)
      → IsPool ids memory p
      → p.waiting ≡ before ++ quota ∷ after
      → p.manager.available_ids ≡ id ∷ mgr.available_ids
      → mgr.mem_sem ≡ p.manager.mem_sem
      → b.id ≡ id
      → b.memory_quota ≡ quota
      → IsPool ids memory
          (record p { manager = mgr; waiting = before ++ after; in_use = b ∷ p.in_use })
  unfolding occurrences holders total_quota
  starts-IsPool ids memory quota id p mgr b before after v w a m e q =
      let total = sum-split before after quota in
      record {
        unshared = λ i.
            let old : one_if (id == i) + occurrences i mgr.available_ids + holders i p.in_use ≤ 1 =
              ground (arith, v.unshared i) in
            ground arith;
        accounted = ground (arith, v.accounted);
        quotas = ground (arith, v.quotas);
        size = ground (arith, v.size);
        fits = ground (arith, v.fits);
      }

  fails-IsPool :
      (ids memory quota id : ℕ) (p : Pool sem) (mgr : BoxManager sem) (before after : List ℕ)
      → IsPool ids memory p
      → p.waiting ≡ before ++ quota ∷ after
      → p.manager.available_ids ≡ id ∷ mgr.available_ids
      → mgr.mem_sem ≡ p.manager.mem_sem
      → IsPool ids memory (record p {
        manager = mgr;
        waiting = before ++ after;
        lost_ids = suc p.lost_ids;
        lost_quota = p.lost_quota + quota;
      })
  unfolding occurrences
  fails-IsPool ids memory quota id p mgr before after v w a m =
      let total = sum-split before after quota in
      record {
        unshared = λ i.
            let old : one_if (id == i) + occurrences i mgr.available_ids + holders i p.in_use ≤ 1 =
              ground (arith, v.unshared i) in
            ground arith;
        accounted = ground (arith, v.accounted);
        quotas = ground (arith, v.quotas);
        size = ground (arith, v.size);
        fits = ground (arith, v.fits);
      }

  releases-IsPool :
      (ids memory : ℕ) (p : Pool sem) (b : Box) (before after : List Box)
      → IsPool ids memory p
      → p.in_use ≡ before ++ b ∷ after
      → IsPool ids memory
          (record p { manager = release_box sem p.manager b; in_use = before ++ after })
  unfolding release_box
  releases-IsPool ids memory p b before after v u =
      let quota = total_quota-split before after b in
      let held : total_quota p.in_use ≡ b.memory_quota + total_quota (before ++ after) =
        rw u quota in
      let released =
        used-release p.manager.mem_sem b.memory_quota (omega (arith, v.quotas, held)) in
      let count : length p.in_use ≡ suc (length (before ++ after)) =
        rw u (length-split before after b) in
      record {
        unshared = λ i.
            let holds : holders i p.in_use ≡ one_if (b.id == i) + holders i (before ++ after) =
              rw u (holders-split i before after b) in
            omega (arith, v.unshared i, holds, occurrences-snoc i b.id p.manager.available_ids);
        accounted =
            omega (arith, v.accounted, count, length-append p.manager.available_ids (b.id ∷ []));
        quotas = omega (arith, v.quotas, held, released);
        size = size-release p.manager.mem_sem b.memory_quota ∙ v.size;
        fits = omega (arith, v.fits, v.quotas, held, released);
      }

  Step-IsPool :
      (ids memory : ℕ) (make : ℕ → ℕ → Result Box) (p q : Pool sem)
      → Faithful make
      → IsPool ids memory p
      → Step sem make p q
      → IsPool ids memory q
  Step-IsPool ids memory make p q g v (Step.acquires quota mgr t) =
      acquires-IsPool ids memory quota p mgr v t
  Step-IsPool ids memory make p q g v (Step.starts before after quota mgr box w t) =
      let (id, a, m, made) = take_box-takes p.manager mgr make quota (ok box) t in
      let (same_id, same_quota) = g id quota box made in
      starts-IsPool ids memory quota id p mgr box before after v w a m same_id same_quota
  Step-IsPool ids memory make p q g v (Step.fails before after quota mgr e w t) =
      let (id, a, m, made) = take_box-takes p.manager mgr make quota (err e) t in
      fails-IsPool ids memory quota id p mgr before after v w a m
  Step-IsPool ids memory make p q g v (Step.releases before after box u) =
      releases-IsPool ids memory p box before after v u

  Reachable-IsPool :
      (start : ℤ) (count memory : ℕ) (make : ℕ → ℕ → Result Box) (p : Pool sem)
      → Faithful make
      → Reachable sem start count memory make p
      → IsPool (2 * count) memory p
  Reachable-IsPool start count memory make p g Reachable.new = new-IsPool start count memory make
  Reachable-IsPool start count memory make p g (Reachable.then_step q r s t) =
      Step-IsPool (2 * count) memory make q p g (Reachable-IsPool start count memory make q g s) t

  -- Whatever the order in which concurrent requests take and release sandboxes, no two of them hold
  -- one id at the same time, and an id in use is not in the channel, as long as the generator gives
  -- the box that it is asked for.
  pub boxes_unshared :
      (start : ℤ) (count memory : ℕ) (make : ℕ → ℕ → Result Box) (p : Pool sem)
      → Faithful make
      → Reachable sem start count memory make p
      → (i : ℕ) → occurrences i p.manager.available_ids + holders i p.in_use ≤ 1
  boxes_unshared start count memory make p g r i =
      (Reachable-IsPool start count memory make p g r).unshared i

  -- The quotas of all boxes in use, with those of the requests that wait for an id, never exceed
  -- the memory given to New, as long as the generator gives the box that it is asked for.
  pub quotas_fit :
      (start : ℤ) (count memory : ℕ) (make : ℕ → ℕ → Result Box) (p : Pool sem)
      → Faithful make
      → Reachable sem start count memory make p
      → sum p.waiting + total_quota p.in_use ≤ memory
  quotas_fit start count memory make p g r =
      let v = Reachable-IsPool start count memory make p g r in omega (arith, v.fits, v.quotas)

  -- The ids in the channel, those in use and those that failing generators have lost are always
  -- twice the count given to New, as long as the generator gives the box that it is asked for; so
  -- the channel, which has room for three times the count, never blocks a release.
  pub ids_accounted :
      (start : ℤ) (count memory : ℕ) (make : ℕ → ℕ → Result Box) (p : Pool sem)
      → Faithful make
      → Reachable sem start count memory make p
      → (length p.manager.available_ids + length p.in_use + p.lost_ids ≡ 2 * count)
        × (length p.manager.available_ids ≤ 3 * count)
  ids_accounted start count memory make p g r =
      let v = Reachable-IsPool start count memory make p g r in
      (v.accounted, omega (arith, v.accounted))
