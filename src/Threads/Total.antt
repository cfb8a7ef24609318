-- ===== src/Threads/Total.antt =====
-- One value for each thread: a write at one thread, and the sum of a weight over the first `n`.
use mathlib.Core.Path.{subst}
use synchronization_library.Prelude.{
  ℕ, zero, suc, ◌+◌, ◌≤◌, ◌<◌, ◌≡◌, ◌≢◌, refl, sym, arith, true, false, ◌==◌, if◌then◌else◌,
  ℕ_discrete, dec_lt,
}

abbrev pub update {ℓ} : {A : Type ℓ} → (ℕ → A) → (who : ℕ) → A → ℕ → A
update values who new thread = if who == thread then new else values thread

-- What holds of the new value, and of the others as they were, holds of all.
pub update-all {ℓ ℓ'} :
    {A : Type ℓ} (P : ℕ → A → Type ℓ') (values : ℕ → A) (who : ℕ) (new : A)
    → P who new
    → ((j : ℕ) → j ≢ who → P j (values j))
    → (j : ℕ) → P j (update values who new j)
update-all P values who new here others j = elim (ℕ_discrete who j) [
  | yes same ↦ subst (λ k. P k (update values who new k)) same (rw (self, update) here)
  | no other ↦ rw (differs other, update) (others j (λ e. other (sym e)))
]
  where
    self : (who == who) ≡ true
    self = ground arith

    differs : who ≢ j → (who == j) ≡ false
    differs other = ground (arith, other)

module _ {ℓ} {A : Type ℓ} (weight : A → ℕ) where
  -- The sum of the weights of threads 0 to n - 1.
  unfoldable pub total : (n : ℕ) → (ℕ → A) → ℕ
  total zero values = 0
  total (suc n) values = weight (values n) + total n values

  -- The sum is that of any other values with the same weights.
  total-congr :
      (n : ℕ) (f g : ℕ → A)
      → ((j : ℕ) → j < n → weight (f j) ≡ weight (g j))
      → total n f ≡ total n g
  unfolding total
  total-congr zero f g same = refl
  total-congr (suc n) f g same =
      omega (arith, same n (omega arith), total-congr n f g (λ j below. same j (omega arith)))

  -- A write at thread `who` exchanges the weight of its old value for that of the new one.
  pub total-update :
      (n : ℕ) (f : ℕ → A) (who : ℕ) (new : A)
      → who < n
      → total n (update f who new) + weight (f who) ≡ total n f + weight new
  unfolding total
  total-update zero f who new lt = absurd (omega arith)
  total-update (suc n) f who new lt = elim (ℕ_discrete who n) [
    | yes is_last ↦
        let rest : total n (update f who new) ≡ total n f =
          total-congr n (update f who new) f (λ j below. ground arith) in
        ground (arith, rest)
    | no earlier ↦ ground (arith, total-update n f who new (omega arith))
  ]

  -- One thread's weight is part of the sum.
  pub weight-le-total : (n : ℕ) (f : ℕ → A) (i : ℕ) → i < n → weight (f i) ≤ total n f
  unfolding total
  weight-le-total zero f i lt = absurd (omega arith)
  weight-le-total (suc n) f i lt = elim (dec_lt i n) [
    | yes inside ↦ omega (arith, weight-le-total n f i inside)
    | no last ↦ ground arith
  ]

  -- So are the weights of two threads.
  pub two-le-total :
      (n : ℕ) (f : ℕ → A) (i j : ℕ)
      → i < n
      → j < n
      → i ≢ j
      → weight (f i) + weight (f j) ≤ total n f
  unfolding total
  two-le-total zero f i j i_lt j_lt ne = absurd (omega arith)
  two-le-total (suc n) f i j i_lt j_lt ne = elim (dec_lt i n) [
    | yes i_in ↦ elim (dec_lt j n) [
      | yes j_in ↦ omega (arith, two-le-total n f i j i_in j_in ne)
      | no j_last ↦ let e : j ≡ n = omega arith in rw e (omega (arith, weight-le-total n f i i_in))
    ]
    | no i_last ↦
        let e : i ≡ n = omega arith in rw e (omega (arith, weight-le-total n f j (omega arith)))
  ]

  -- Where no thread has a weight the sum is 0.
  pub total-eq-zero : (n : ℕ) (f : ℕ → A) → ((i : ℕ) → i < n → weight (f i) ≡ 0) → total n f ≡ 0
  unfolding total
  total-eq-zero zero f h = refl
  total-eq-zero (suc n) f h =
      omega (arith, h n (omega arith), total-eq-zero n f (λ i lt. h i (omega arith)))

  pub total-const : (n : ℕ) (a : A) → weight a ≡ 0 → total n (λ _. a) ≡ 0
  total-const n a h = total-eq-zero n (λ _. a) (λ i lt. h)

  -- The sum of weights of at most 1.
  pub total-le : (n : ℕ) (f : ℕ → A) → ((value : A) → weight value ≤ 1) → total n f ≤ n
  unfolding total
  total-le zero f small = omega arith
  total-le (suc n) f small = omega (arith, small (f n), total-le n f small)

-- Where one weight adds up to 0, so does another that is 0 wherever the first is.
pub total-eq-zero_of {ℓ} :
    {A : Type ℓ} (v w : A → ℕ)
    → ((a : A) → v a ≡ 0 → w a ≡ 0)
    → (n : ℕ) (f : ℕ → A) → total v n f ≡ 0
    → total w n f ≡ 0
unfolding total
total-eq-zero_of v w implied zero f none = refl
total-eq-zero_of v w implied (suc n) f none =
    omega (arith, implied (f n) (omega arith), total-eq-zero_of v w implied n f (omega arith))

-- Where every value has one of three weights, the three sums make up the number of threads.
pub total-total-total {ℓ} :
    {A : Type ℓ} (v w x : A → ℕ)
    → ((a : A) → v a + w a + x a ≡ 1)
    → (n : ℕ) (f : ℕ → A) → total v n f + total w n f + total x n f ≡ n
unfolding total
total-total-total v w x one zero f = omega arith
total-total-total v w x one (suc n) f = omega (arith, one (f n), total-total-total v w x one n f)
