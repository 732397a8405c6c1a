-- ===== src/Sdk/Client/Counts.antt =====
-- How often a promise stands among the waiters, the timers and what is settled.
use ac.Common.{
  ℕ, ◌+◌, ◌≡◌, ◌≤◌, refl, String, some, List, [], ◌∷◌, ◌++◌, if◌then◌else◌, not, ◌&&◌, nat_beq,
  arith, ◌⊎◌, inr, string_eq, nat_eq, lookup, ◌==◌, some, none, false, insert, remove, one_if,
}
use text.Mathlib.TextEquality.{eq_iff}
use ac.Sdk.Client.{Pending, clear_timer, clear_all, reject_all}
unfoldable pub use ac.Common.{keyed}
pub use ac.Common.{keyed-append, keyed-remove, keyed-lookup}

module _ (p : ℕ) where
  unfoldable pub waiting : List (String × Pending) → ℕ
  waiting [] = 0
  waiting ((id, w) ∷ m) = one_if (nat_beq w.promise p) + waiting m

  -- The waiters without a timer.
  unfoldable pub untimed : List (String × Pending) → ℕ
  untimed [] = 0
  untimed ((id, w) ∷ m) = one_if (nat_beq w.promise p && not w.timed) + untimed m

  pub waiting-remove-le :
      (id : String) (m : List (String × Pending)) → waiting (remove id m) ≤ waiting m
  unfolding waiting remove
  waiting-remove-le id [] = omega arith
  waiting-remove-le id ((j, w) ∷ m) = ground (arith, waiting-remove-le id m)

  pub untimed-remove-le :
      (id : String) (m : List (String × Pending)) → untimed (remove id m) ≤ untimed m
  unfolding untimed remove
  untimed-remove-le id [] = omega arith
  untimed-remove-le id ((j, w) ∷ m) = ground (arith, untimed-remove-le id m)

  pub waiting-lookup :
      (id : String) (w : Pending) (m : List (String × Pending))
      → lookup id m ≡ some w
      → waiting (remove id m) + one_if (nat_beq w.promise p) ≤ waiting m
  unfolding waiting remove lookup
  waiting-lookup id w [] h = cc
  waiting-lookup id w ((j, v) ∷ m) h = ground (arith, waiting-lookup id w m, waiting-remove-le id m)

  pub untimed-lookup :
      (id : String) (w : Pending) (m : List (String × Pending))
      → lookup id m ≡ some w
      → untimed (remove id m) + one_if (nat_beq w.promise p && not w.timed) ≤ untimed m
  unfolding untimed remove lookup
  untimed-lookup id w [] h = cc
  untimed-lookup id w ((j, v) ∷ m) h = ground (arith, untimed-lookup id w m, untimed-remove-le id m)

  pub waiting-insert-le :
      (id : String) (w : Pending) (m : List (String × Pending))
      → waiting (insert id w m) ≤ waiting m + one_if (nat_beq w.promise p)
  unfolding waiting insert
  waiting-insert-le id w [] = omega arith
  waiting-insert-le id w ((j, v) ∷ m) = ground (arith, waiting-insert-le id w m)

  pub untimed-insert-le :
      (id : String) (w : Pending) (m : List (String × Pending))
      → untimed (insert id w m) ≤ untimed m + one_if (nat_beq w.promise p && not w.timed)
  unfolding untimed insert
  untimed-insert-le id w [] = omega arith
  untimed-insert-le id w ((j, v) ∷ m) = ground (arith, untimed-insert-le id w m)

  pub keyed-reject_all : (m : List (String × Pending)) → keyed p (reject_all m) ≡ waiting m
  unfolding keyed waiting reject_all
  keyed-reject_all [] = refl
  keyed-reject_all ((j, v) ∷ m) = omega (arith, keyed-reject_all m)

  pub keyed-clear_timer :
      (w : Pending) (ts : List (ℕ × (String × ℕ)))
      → keyed p (clear_timer w ts) ≡ (if nat_beq w.promise p && w.timed then 0 else keyed p ts)
  unfolding clear_timer
  keyed-clear_timer w ts = ground (arith, keyed-remove p w.promise ts)

  -- Clearing the timers of all waiters leaves only those of waiters without one.
  pub keyed-clear_all :
      (m : List (String × Pending)) (ts : List (ℕ × (String × ℕ)))
      → (keyed p (clear_all m ts) ≤ keyed p ts)
        × ((keyed p (clear_all m ts) ≡ 0) ⊎ (waiting m ≡ untimed m))
  unfolding waiting untimed clear_all
  keyed-clear_all [] ts = (omega arith, inr refl)
  keyed-clear_all ((j, v) ∷ m) ts =
      ground (arith, keyed-clear_all m (clear_timer v ts), keyed-clear_timer v ts)

  pub waiting-remove-insert :
      (k j : String) (w : Pending) (m : List (String × Pending))
      → waiting (remove k (insert j w m))
        ≤ waiting (remove k m) + (if j == k then 0 else one_if (nat_beq w.promise p))
  unfolding waiting insert remove
  waiting-remove-insert k j w [] = ground arith
  waiting-remove-insert k j w ((i, v) ∷ m) =
      ground (arith, eq_iff i j, eq_iff j k, eq_iff i k, waiting-remove-insert k j w m)

  pub waiting-remove-remove :
      (k j : String) (m : List (String × Pending))
      → waiting (remove k (remove j m)) ≤ waiting (remove k m)
  unfolding waiting remove
  waiting-remove-remove k j [] = ground arith
  waiting-remove-remove k j ((i, v) ∷ m) = ground (arith, waiting-remove-remove k j m)

  pub lookup-append_fresh {ℓ} :
      {V : Type ℓ} (m : List (ℕ × V)) (q : ℕ) (v : V)
      → keyed p m ≡ 0
      → lookup p (m ++ (q, v) ∷ []) ≡ (if nat_beq q p then some v else none)
  unfolding keyed lookup
  lookup-append_fresh [] q v h = refl
  lookup-append_fresh ((r, w) ∷ m) q v h = ground (arith, lookup-append_fresh m q v)

  pub lookup-append_other {ℓ} :
      {V : Type ℓ} (m : List (ℕ × V)) (q : ℕ) (v : V)
      → nat_beq q p ≡ false
      → lookup p (m ++ (q, v) ∷ []) ≡ lookup p m
  unfolding lookup
  lookup-append_other [] q v h = ground arith
  lookup-append_other ((r, w) ∷ m) q v h = ground (arith, lookup-append_other m q v)
