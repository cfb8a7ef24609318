-- ===== src/RecursiveTimedMutex/Invariant.antt =====
-- stdlib/mutex.hpp, class `recursive_timed_mutex`: what holds between the steps, and how one step keeps it.
use synchronization_library.Prelude.{
  ℕ, ◌+◌, ◌-◌, ◌≤◌, ◌<◌, ◌≡◌, ◌≢◌, refl, arith, true, false, ◌==◌, ℕ_discrete,
}
use synchronization_library.Threads.{System, update, total, total-update, weight-le-total}
use synchronization_library.RecursiveTimedMutex.{RecursiveTimedMutex, max_count, Owner}

abbrev pub depth_of : Owner → ℕ
depth_of p = p.depth

pub record Inv (n : ℕ) (s : System RecursiveTimedMutex Owner) : Type 0 where
  pub counted : s.mem.count ≡ total depth_of n s.pc
  pub fits : s.mem.count ≤ max_count
  pub free : s.mem.count ≡ 0 → s.mem.id ≡ 0
  pub named : (i : ℕ) → (s.pc i).self ≡ i + 1
  pub owner : (i : ℕ) → i < n → 0 < (s.pc i).depth → s.mem.id ≡ i + 1

pub record Mover (n : ℕ) (s : System RecursiveTimedMutex Owner) (i : ℕ) (p : Owner) : Type 0 where
  pub lt : i < n
  pub sums :
      (p' : Owner)
      → total depth_of n (update s.pc i p') + depth_of p ≡ total depth_of n s.pc + depth_of p'
  pub a_depth : depth_of p ≤ total depth_of n s.pc
  pub own_name : p.self ≡ i + 1
  pub own_depth : 0 < p.depth → s.mem.id ≡ i + 1

-- No other thread is inside once this one has the mutex.
module _ (n : ℕ) (s : System RecursiveTimedMutex Owner) (i : ℕ) (p : Owner) (inv : Inv n s)
    (mv : Mover n s i p) where
  -- Another thread's depth is the same after a move of thread i.
  kept_depth : (j : ℕ) (p' : Owner) → i ≢ j → 0 < (update s.pc i p' j).depth → 0 < (s.pc j).depth
  kept_depth j p' ne deep = ground (arith, deep)

  pub deeper-Inv :
      (count id : ℕ)
      → s.mem.count < max_count
      → (s.mem.count ≢ 0 → s.mem.id ≡ p.self)
      → count ≡ s.mem.count + 1
      → id ≡ p.self
      → Inv n (record {
        mem = record { count = count; id = id };
        pc = update s.pc i (record p { depth = p.depth + 1 });
      })
  deeper-Inv count id room mine more named = record {
    counted = omega (arith, inv.counted, mv.sums (record p { depth = p.depth + 1 }));
    fits = omega arith;
    free = λ e. absurd (omega arith);
    named = λ j. ground (arith, inv.named j, mv.own_name);
    owner = λ j lt deep. elim (ℕ_discrete i j) [
      | yes e ↦ omega (arith, mv.own_name, e)
      | no ne ↦
          let deep' = kept_depth j (record p { depth = p.depth + 1 }) ne deep in
          omega (
            arith,
            mine (omega (arith, inv.counted, weight-le-total depth_of n s.pc j lt)),
            inv.owner j lt deep',
          )
    ];
  }

  pub same-Inv : s.pc i ≡ p → Inv n (record { mem = s.mem; pc = update s.pc i p })
  same-Inv at = record {
    counted = omega (arith, inv.counted, mv.sums p);
    fits = inv.fits;
    free = inv.free;
    named = λ j. ground (arith, inv.named j, mv.own_name);
    owner = λ j lt deep. elim (ℕ_discrete i j) [
      | yes e ↦ ground (arith, mv.own_depth, e)
      | no ne ↦ inv.owner j lt (kept_depth j p ne deep)
    ];
  }

  pub less-Inv :
      (count id : ℕ)
      → 0 < p.depth
      → count + 1 ≡ s.mem.count
      → (count ≡ 0 → id ≡ 0)
      → (count ≢ 0 → id ≡ s.mem.id)
      → Inv n (record {
        mem = record { count = count; id = id };
        pc = update s.pc i (record p { depth = p.depth - 1 });
      })
  less-Inv count id deep less cleared kept = record {
    counted = omega (arith, inv.counted, mv.sums (record p { depth = p.depth - 1 }));
    fits = omega (arith, inv.fits);
    free = cleared;
    named = λ j. ground (arith, inv.named j, mv.own_name);
    owner = λ j lt deep'. elim (ℕ_discrete i j) [
      | yes e ↦
          let still : 0 < p.depth - 1 = ground (arith, deep', e) in
          omega (
            arith,
            kept (omega (arith, inv.counted, mv.a_depth, less, still)),
            mv.own_depth deep,
            e,
          )
      | no ne ↦
          let deep'' = kept_depth j (record p { depth = p.depth - 1 }) ne deep' in
          absurd (omega (arith, inv.owner j lt deep'', mv.own_depth deep, ne))
    ];
  }

pub mover :
    (n : ℕ) (s : System RecursiveTimedMutex Owner) (i : ℕ) (p : Owner)
    → Inv n s
    → i < n
    → s.pc i ≡ p
    → Mover n s i p
mover n s i p inv lt at = record {
  lt = lt;
  sums = λ p'. rw (← at) (total-update depth_of n s.pc i p' lt);
  a_depth = rw (← at) (weight-le-total depth_of n s.pc i lt);
  own_name = rw (← at) (inv.named i);
  own_depth = rw (← at) (inv.owner i lt);
}

-- The owner takes the mutex once more, and a thread takes it when it is free.
module _ (n : ℕ) (s : System RecursiveTimedMutex Owner) (i : ℕ) (p : Owner) (inv : Inv n s)
    (mv : Mover n s i p) where
  pub again-Inv :
      (p.self == s.mem.id) ≡ true
      → (s.mem.count == max_count) ≡ false
      → Inv n (record {
        mem = record { count = s.mem.count + 1; id = s.mem.id };
        pc = update s.pc i (record p { depth = p.depth + 1 });
      })
  again-Inv mine room =
      deeper-Inv n s i p inv mv (s.mem.count + 1) s.mem.id (ground (arith, inv.fits, room))
        (λ _. ground (arith, mine)) refl (ground (arith, mine))

  pub first-Inv :
      (s.mem.count == 0) ≡ true
      → Inv n (record {
        mem = record { count = 1; id = p.self };
        pc = update s.pc i (record p { depth = p.depth + 1 });
      })
  first-Inv is_free =
      deeper-Inv n s i p inv mv 1 p.self (ground (arith, is_free))
        (λ held. ground (arith, is_free, held)) (ground (arith, is_free)) refl
