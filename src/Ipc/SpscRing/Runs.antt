-- ===== src/Ipc/SpscRing/Runs.antt =====
-- Whole runs of the ring against the bounded queue.
use order_matching_engine.Base.{ℕ, ◌<◌, ◌≡◌, refl, ap, ap₂, ◌∙◌, List, [], ◌∷◌, Bool, Option}
use order_matching_engine.Ipc.SpscRing.{SpscRing, empty_ring, push, pop}
use order_matching_engine.Ipc.SpscRing.Refine.{
  Holds, offer, poll, push_lem, pop_lem, push-capacity, pop-capacity, empty_ring-Holds,
}

-- One call of either side, and its answer.
pub data Call (A : Type 0) : Type 0 where
  pushes : A → Call A
  pops : Call A

pub data Answer (A : Type 0) : Type 0 where
  pushed : Bool → Answer A
  popped : Option A → Answer A

module _ {A : Type 0} where
  unfoldable pub run : SpscRing A → List (Call A) → List (Answer A)
  unfolding push pop
  run r [] = []
  run r (pushes v ∷ cs) = let p = push r v in pushed p.1 ∷ run p.0 cs
  run r (pops ∷ cs) = let p = pop r in popped p.1 ∷ run p.0 cs

  abbrev pub run_queue : ℕ → List A → List (Call A) → List (Answer A)
  run_queue cap q [] = []
  run_queue cap q (pushes v ∷ cs) = let p = offer cap q v in pushed p.1 ∷ run_queue cap p.0 cs
  run_queue cap q (pops ∷ cs) = let p = poll q in popped p.1 ∷ run_queue cap p.0 cs

  run_lem :
      (r : SpscRing A) (q : List A) (cs : List (Call A))
      → Holds r q
      → run r cs ≡ run_queue r.capacity q cs
  unfolding run
  run_lem r q [] h = refl
  run_lem r q (pushes v ∷ cs) h =
      let step = push_lem r q v h in
      ap₂ ◌∷◌ (ap pushed step.1) (
        run_lem (push r v).0 (offer r.capacity q v).0 cs step.0
        ∙ ap (λ c. run_queue c (offer r.capacity q v).0 cs) (push-capacity r v))
  run_lem r q (pops ∷ cs) h =
      let step = pop_lem r q h in
      ap₂ ◌∷◌ (ap popped step.1) (
        run_lem (pop r).0 (poll q).0 cs step.0
        ∙ ap (λ c. run_queue c (poll q).0 cs) (pop-capacity r))

  -- A ring with some capacity answers any sequence of pushes and pops as a queue bounded by that
  -- capacity does.
  pub run-queue :
      (cap : ℕ) (d : A) (cs : List (Call A))
      → 0 < cap
      → run (empty_ring cap d) cs ≡ run_queue cap [] cs
  unfolding empty_ring
  run-queue n d cs pos = run_lem (empty_ring n d) [] cs (empty_ring-Holds n d pos)
