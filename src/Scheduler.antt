-- ===== src/Scheduler.antt =====
-- The pool of sandboxes (eval/scheduler/manager.go: New, getBox, releaseBox). The weighted semaphore
-- is golang.org/x/sync's and stands as an interface; making a sandbox is the generator's. Concurrent
-- requests are steps: getBox is one for the quota and one for the id, releaseBox is one.
pub mod Counting
pub mod Boxes
use kilonova.Prelude.{
  ℕ, zero, suc, ◌+◌, ◌-◌, ◌*◌, ◌≤◌, ◌≡◌, Bool, Option, none, some, List, [], ◌∷◌, ◌++◌, ltb,
  if◌then◌else◌,
}
use kilonova.Prelude.Int.{ℤ, pos_part}
use kilonova.Status.{GoError, plain, Result, ok, err}

-- semaphore.Weighted: NewWeighted, Acquire and Release, and what it holds.
pub record Semaphore : Type 1 where
  pub S : Type 0
  pub new_weighted : ℕ → S
  pub acquire : S → ℕ → Result S
  pub release : S → ℕ → S
  pub size : S → ℕ
  pub used : S → ℕ

-- What the package documents: weights add up, and never exceed the size.
pub record SemaphoreLaws (sem : Semaphore) : Type 0 where
  pub size-new_weighted : (n : ℕ) → sem.size (sem.new_weighted n) ≡ n
  pub used-new_weighted : (n : ℕ) → sem.used (sem.new_weighted n) ≡ 0
  pub size-acquire : (s t : sem.S) (n : ℕ) → sem.acquire s n ≡ ok t → sem.size t ≡ sem.size s
  pub used-acquire : (s t : sem.S) (n : ℕ) → sem.acquire s n ≡ ok t → sem.used t ≡ sem.used s + n
  pub acquire-fits : (s t : sem.S) (n : ℕ) → sem.acquire s n ≡ ok t → sem.used t ≤ sem.size t
  pub size-release : (s : sem.S) (n : ℕ) → sem.size (sem.release s n) ≡ sem.size s
  pub used-release :
      (s : sem.S) (n : ℕ) → n ≤ sem.used s → sem.used (sem.release s n) ≡ sem.used s - n

-- A sandbox, as the manager sees it: GetID and MemoryQuota.
pub record Box : Type 0 where
  pub id : ℕ
  pub memory_quota : ℕ

-- The ids `next`, `next + 1`, …, as the loop of New sends them.
unfoldable pub id_range : ℕ → ℕ → List ℕ
id_range next zero = []
id_range next (suc n) = next ∷ id_range (suc next) n

module _ (sem : Semaphore) where
  pub record BoxManager : Type 0 where
    pub num_concurrent : ℕ
    pub conc_sem : sem.S
    pub mem_sem : sem.S
    pub max_memory : ℕ
    -- The channel's contents, oldest first.
    pub available_ids : List ℕ
    -- BoxFunc; a nil generator is `none`.
    pub box_generator : Option (ℕ → ℕ → Result Box)

  unfoldable pub new_manager : ℤ → ℕ → ℕ → Option (ℕ → ℕ → Result Box) → BoxManager
  new_manager starting_number count max_memory box_generator = record {
    num_concurrent = count;
    conc_sem = sem.new_weighted count;
    mem_sem = sem.new_weighted max_memory;
    max_memory = max_memory;
    available_ids = id_range (suc (pos_part starting_number)) (2 * count);
    box_generator = box_generator;
  }

  -- The first half of getBox: the quota, unless it is 0.
  unfoldable pub take_memory : BoxManager → ℕ → Result BoxManager
  take_memory mgr quota = elim mgr.box_generator [
    | none ↦ err (plain "empty box generator")
    | some make ↦
        if ltb 0 quota
        then elim (sem.acquire mgr.mem_sem quota) [
          | err e ↦ err e
          | ok s ↦ ok (record mgr { mem_sem = s })
        ]
        else ok mgr
  ]

  -- The second half: an id from the channel, which waits while the channel is empty, and the
  -- generator.
  pub data Taken : Type 0 where
    waits : Taken
    takes : BoxManager → Result Box → Taken

  unfoldable pub take_box : BoxManager → (ℕ → ℕ → Result Box) → ℕ → Taken
  take_box mgr make quota = elim mgr.available_ids [
    | [] ↦ waits
    | id ∷ ids ↦ takes (record mgr { available_ids = ids }) (make id quota)
  ]

  -- The id goes to the end of the channel, and the quota back, whatever Close reports.
  unfoldable pub release_box : BoxManager → Box → BoxManager
  release_box mgr box = record mgr {
    available_ids = mgr.available_ids ++ box.id ∷ [];
    mem_sem = sem.release mgr.mem_sem box.memory_quota;
  }

  -- The manager with the requests that it serves: quotas held by requests that wait for an id, boxes
  -- in use, and how many ids and how much quota failing generators have lost.
  pub record Pool : Type 0 where
    pub manager : BoxManager
    pub waiting : List ℕ
    pub in_use : List Box
    pub lost_ids : ℕ
    pub lost_quota : ℕ

  -- One step of one of the concurrent requests.
  pub data Step (make : ℕ → ℕ → Result Box) (p : Pool) : Pool → Type 0 where
    acquires :
        (quota : ℕ) (mgr : BoxManager)
        → take_memory p.manager quota ≡ ok mgr
        → Step make p (record p { manager = mgr; waiting = quota ∷ p.waiting })
    starts :
        (before after : List ℕ) (quota : ℕ) (mgr : BoxManager) (box : Box)
        → p.waiting ≡ before ++ quota ∷ after
        → take_box p.manager make quota ≡ takes mgr (ok box)
        → Step make p
            (record p { manager = mgr; waiting = before ++ after; in_use = box ∷ p.in_use })
    fails :
        (before after : List ℕ) (quota : ℕ) (mgr : BoxManager) (e : GoError)
        → p.waiting ≡ before ++ quota ∷ after
        → take_box p.manager make quota ≡ takes mgr (err e)
        → Step make p (record p {
          manager = mgr;
          waiting = before ++ after;
          lost_ids = suc p.lost_ids;
          lost_quota = p.lost_quota + quota;
        })
    releases :
        (before after : List Box) (box : Box)
        → p.in_use ≡ before ++ box ∷ after
        → Step make p (record p { manager = release_box p.manager box; in_use = before ++ after })

  -- The pools that New's manager comes to.
  pub data Reachable (starting_number : ℤ) (count max_memory : ℕ) (make : ℕ → ℕ → Result Box)
      : Pool → Type 0 where
    new : Reachable starting_number count max_memory make (record {
      manager = new_manager starting_number count max_memory (some make);
      waiting = [];
      in_use = [];
      lost_ids = 0;
      lost_quota = 0;
    })
    then_step :
        (p q : Pool)
        → Reachable starting_number count max_memory make p
        → Step make p q
        → Reachable starting_number count max_memory make q
