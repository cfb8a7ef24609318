-- ===== src/Queue/Slots.antt =====
-- The storage `data_` of the bounded queues of sync/queue.hpp: `size_` slots, used round and round.
-- A slot is `none` while it is raw memory and `some x` while the object `x` lives in it.
use native.Mathlib.Nat.{add-zero, mod-add-mod, mod-eq_of_lt}
use synchronization_library.Prelude.{
  ℕ, zero, suc, ◌+◌, ◌-◌, ◌%◌, ◌<◌, ◌≡◌, ◌≢◌, ◌∙◌, ap, arith, Option, none, some, List, [], ◌∷◌,
  ◌++◌, length, get_elem?, set, get_elem?-set_ne,
}

-- The slot after `h`.
abbrev pub next : ℕ → ℕ → ℕ
next size h = (h + 1) % size

-- The slot `k` steps after `h`.
pub advance : ℕ → ℕ → ℕ → ℕ
advance size h zero = h
advance size h (suc k) = advance size (next size h) k

pub advance-eq : (size h k : ℕ) → h < size → advance size h k ≡ (h + k) % size
unfolding advance
advance-eq size h zero lt = rw (add-zero, mod-eq_of_lt lt)
advance-eq size h (suc k) lt = advance-eq size (next size h) k (omega arith) ∙ shift
  where
    shift : ((h + 1) % size + k) % size ≡ (h + suc k) % size
    shift = rw mod-add-mod (ap (λ t. t % size) (omega arith))

-- Fewer than `size` steps do not come back.
add-mod-ne : (size h k : ℕ) → h < size → 0 < k → k < size → (h + k) % size ≢ h
add-mod-ne size h k lt pos below back = absurd (grind arith)

-- Slot `i` is none of the `k` slots from `h` on.
abbrev pub IsOutside : ℕ → ℕ → ℕ → ℕ → Type 0
IsOutside size h zero i = Unit
IsOutside size h (suc k) i = (i ≢ h) × IsOutside size (next size h) k i

IsOutside-far :
    (size h k d i : ℕ) → h < size → k < d + 1 → d < size → i ≡ (h + d) % size → IsOutside size h k i
IsOutside-far size h zero d i lt kd ds e = tt
IsOutside-far size h (suc k) zero i lt kd ds e = absurd (omega arith)
IsOutside-far size h (suc k) (suc d) i lt kd ds e = (
  λ same. add-mod-ne size h (suc d) lt (omega arith) ds (omega arith),
  IsOutside-far size (next size h) k d i (omega arith) (omega arith) (omega arith) (e ∙ shift),
)
  where
    shift : (h + suc d) % size ≡ ((h + 1) % size + d) % size
    shift = rw mod-add-mod (ap (λ t. t % size) (omega arith))

-- The slot just behind `k` slots is none of them.
pub IsOutside-after : (size h k : ℕ) → h < size → k < size → IsOutside size h k (advance size h k)
IsOutside-after size h k lt ks =
    IsOutside-far size h k k (advance size h k) lt (omega arith) ks (advance-eq size h k lt)

-- The slot just before `k` slots is none of them.
pub IsOutside-before : (size h k : ℕ) → h < size → k < size → IsOutside size (next size h) k h
IsOutside-before size h k lt ks =
    IsOutside-far size (next size h) k (size - 1) h (omega arith) (omega arith) (omega arith) back
  where
    back : h ≡ ((h + 1) % size + (size - 1)) % size
    back = rw mod-add-mod (grind arith)

module _ {A : Type 0} (size : ℕ) where
  -- The slots from `h` on hold the objects of the list, in its order.
  abbrev pub IsLive : List (Option A) → ℕ → List A → Type 0
  IsLive slots h [] = Unit
  IsLive slots h (x ∷ xs) = (get_elem? slots h ≡ some (some x)) × IsLive slots (next size h) xs

  -- The `k` slots from `h` on are raw memory.
  abbrev pub IsRaw : List (Option A) → ℕ → ℕ → Type 0
  IsRaw slots h zero = Unit
  IsRaw slots h (suc k) = (get_elem? slots h ≡ some none) × IsRaw slots (next size h) k

  pub set-IsLive :
      (slots : List (Option A)) (h i : ℕ) (v : Option A) (xs : List A)
      → IsOutside size h (length xs) i
      → IsLive slots h xs
      → IsLive (set slots i v) h xs
  set-IsLive slots h i v [] out live = tt
  set-IsLive slots h i v (x ∷ xs) out live =
      (get_elem?-set_ne slots v out.0 ∙ live.0, set-IsLive slots (next size h) i v xs out.1 live.1)

  pub set-IsRaw :
      (slots : List (Option A)) (h i : ℕ) (v : Option A) (k : ℕ)
      → IsOutside size h k i
      → IsRaw slots h k
      → IsRaw (set slots i v) h k
  set-IsRaw slots h i v zero out raw = tt
  set-IsRaw slots h i v (suc k) out raw =
      (get_elem?-set_ne slots v out.0 ∙ raw.0, set-IsRaw slots (next size h) i v k out.1 raw.1)

  -- One more object behind the live ones.
  pub IsLive-append :
      (slots : List (Option A)) (h : ℕ) (xs : List A) (x : A)
      → IsLive slots h xs
      → get_elem? slots (advance size h (length xs)) ≡ some (some x)
      → IsLive slots h (xs ++ (x ∷ []))
  unfolding advance
  IsLive-append slots h [] x live last = (last, tt)
  IsLive-append slots h (y ∷ ys) x live last =
      (live.0, IsLive-append slots (next size h) ys x live.1 last)

  -- One more raw slot behind the raw ones.
  pub IsRaw-suc :
      (slots : List (Option A)) (h k : ℕ)
      → IsRaw slots h k
      → get_elem? slots (advance size h k) ≡ some none
      → IsRaw slots h (suc k)
  unfolding advance
  IsRaw-suc slots h zero raw last = (last, tt)
  IsRaw-suc slots h (suc k) raw last = (raw.0, IsRaw-suc slots (next size h) k raw.1 last)
