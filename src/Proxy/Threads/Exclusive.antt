-- ===== src/Proxy/Threads/Exclusive.antt =====
-- At most one thread has the lock.
use osclientcerts.Prelude.{ℕ, ◌≡◌, true, Option}
use osclientcerts.Backend.{Backend}
use osclientcerts.Manager.State.{Manager}
use osclientcerts.Proxy.Threads.{System, Reach}
use osclientcerts.Proxy.Threads.Invariant.{is_inside, Phase, free, inside, asked, answered}
use osclientcerts.Proxy.Threads.Atomic.{Reach-Inv}

module _ (B : Backend) (A : Type 0) where
  exclusive :
      (t : Option (Manager B)) (s : System B A) (i j : ℕ)
      → Phase B A t s
      → is_inside (s.pc i) ≡ true
      → is_inside (s.pc j) ≡ true
      → i ≡ j
  exclusive t s i j (free _ _ none_inside) h h' = absurd (let no = none_inside i in cc)
  exclusive t s i j (inside l _ _ _ _ only _ _ _) h h' = cc (only i h, only j h')
  exclusive t s i j (asked l _ _ _ _ _ only _ _ _) h h' = cc (only i h, only j h')
  exclusive t s i j (answered l _ _ _ _ _ only _ _ _) h h' = cc (only i h, only j h')

  pub Reach-exclusive :
      {m : Manager B} {s : System B A}
      → Reach B A m s
      → (i j : ℕ) → is_inside (s.pc i) ≡ true
      → is_inside (s.pc j) ≡ true
      → i ≡ j
  Reach-exclusive {m} {s} r i j = exclusive (Reach-Inv B A r).thread s i j (Reach-Inv B A r).phase
