-- ===== src/Tests/Pool.antt =====
-- The theorems on the pool, at a small one.
use order_matching_engine.Base.{◌≡◌, refl, [], ◌∷◌, true}
use order_matching_engine.Book.IdSet.{contains, erase}
use order_matching_engine.Common.ObjectPool.{
  ObjectPool, create, acquire, acquire_from, release, thread, IsPool, Acquired, create-IsPool,
  acquire-Acquired, release-IsPool,
}

abbrev small : ObjectPool
small = create 2

abbrev one_held : ObjectPool
one_held = (acquire small).1

acquire-Acquired_example : Acquired small [] (acquire small)
acquire-Acquired_example = acquire-Acquired small [] (create-IsPool 2)

one_held-IsPool : IsPool one_held (0 ∷ [])
unfolding create acquire acquire_from thread
one_held-IsPool = (acquire-Acquired small [] (create-IsPool 2)).2

zero_held : contains 0 (0 ∷ []) ≡ true
unfolding contains
zero_held = refl

release-IsPool_example : IsPool (release one_held 0) (erase 0 (0 ∷ []))
release-IsPool_example = release-IsPool one_held (0 ∷ []) 0 one_held-IsPool zero_held
