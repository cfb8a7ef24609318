-- ===== src/StopState/Handles/Changes.antt =====
-- stdlib/stop_token.hpp: swaps, copies and new objects of `stop_token` and `stop_source` keep the counts.
use mathlib.Core.Path.{subst}
use synchronization_library.Prelude.{
  ℕ, ◌+◌, ◌^◌, ◌<◌, ◌≡◌, refl, ap, arith, Option, none, ◌==◌, Bool-cases, Option-cases, inl, inr,
}
use synchronization_library.Threads.{update, total, total-update, total-eq-zero}
use synchronization_library.StopState.Handles.Use.{
  Objects, set_token, set_source, add_source, make_state,
}
use synchronization_library.StopState.Handles.Counts.{
  points_to, IsMade, Facts, Inv, set_token-Inv, set_source-Inv, add_source-Inv, sources-add_source,
}

module _ (n : ℕ) (few : n + 4 < 2 ^ 31) where
  -- A token is made where there is none, and takes the temporary over.
  pub new_token-Inv :
      (o : Objects) (temp : Option ℕ) (i : ℕ)
      → i < n
      → o.tokens i ≡ none
      → Inv n o temp
      → Inv n (set_token i temp o) none
  new_token-Inv o temp i lt absent inv =
      subst (λ t. Inv n (set_token i temp o) t) absent (set_token-Inv n few o temp i lt inv)

  -- A source gets a copy of a pointer that a source has.
  pub copied_source-Inv :
      (o : Objects) (i j : ℕ)
      → Inv n o none
      → Inv n (set_source i (o.sources j) (add_source (o.sources j) o)) none
  copied_source-Inv o i j inv =
      set_source-Inv n few (add_source (o.sources j) o) none (o.sources j) i
        (λ room.
          subst (IsMade (add_source (o.sources j) o).made)
            (ap (λ f. f j) (sources-add_source (o.sources j) o)) ((added room).sources_made j))
        added
    where
      added : Inv n (add_source (o.sources j) o) none
      added = add_source-Inv n few o (o.sources j) none inv

  pub swapped_tokens-Inv :
      (o : Objects) (i j : ℕ)
      → i < n
      → j < n
      → Inv n o none
      → Inv n (set_token j (o.tokens i) (set_token i (o.tokens j) o)) none
  swapped_tokens-Inv o i j i_lt j_lt inv room = record {
    tokens_made = λ x. elim (Bool-cases (j == x)) [
      | inl at_j ↦ rw at_j (f.tokens_made i)
      | inr not_j ↦ elim (Bool-cases (i == x)) [
        | inl at_i ↦ rw (not_j, at_i) (f.tokens_made j)
        | inr not_i ↦ rw (not_j, not_i) (f.tokens_made x)
      ]
    ];
    sources_made = f.sources_made;
    temp_made = f.temp_made;
    right = λ k made.
        let r = f.right k made in
        record {
          alive = r.alive;
          sources = r.sources;
          some_source = r.some_source;
          few_sources = r.few_sources;
          word = rw (same k) r.word;
        };
  }
    where
      f : Facts n o none
      f = inv room

      old : (update o.tokens i (o.tokens j)) j ≡ o.tokens j
      old = elim (Bool-cases (i == j)) [ inl here ↦ rw here refl | inr other ↦ rw other refl ]

      same :
          (k : ℕ)
          → total (points_to k) n (update (update o.tokens i (o.tokens j)) j (o.tokens i))
            ≡ total (points_to k) n o.tokens
      same k = omega (
        arith,
        total-update (points_to k) n (update o.tokens i (o.tokens j)) j (o.tokens i) j_lt,
        total-update (points_to k) n o.tokens i (o.tokens j) i_lt,
        ap (points_to k) old,
      )

  pub make_state-Inv : (o : Objects) → Inv n o none → Inv n (make_state o) none
  make_state-Inv o inv room = record {
    tokens_made = λ i k e. omega (arith, f.tokens_made i k e);
    sources_made = λ i k e. omega (arith, f.sources_made i k e);
    temp_made = λ k e. cc;
    right = λ k made. elim (Bool-cases (o.made == k)) [
      | inl here ↦
          let nobody : total (points_to k) n o.tokens ≡ 0 =
            total-eq-zero (points_to k) n o.tokens (λ i lt. unused i k (ground arith)) in
          record {
            alive = rw here refl;
            sources = 1;
            some_source = omega arith;
            few_sources = omega arith;
            word = rw (here, nobody) refl;
          }
      | inr other ↦
          let r = f.right k (ground arith) in
          record {
            alive = rw other r.alive;
            sources = r.sources;
            some_source = r.some_source;
            few_sources = r.few_sources;
            word = rw other r.word;
          }
    ];
  }
    where
      f : Facts n o none
      f = inv room

      unused : (i k : ℕ) → o.made ≡ k → points_to k (o.tokens i) ≡ 0
      unused i k e = elim (Option-cases (o.tokens i)) [
        | inl none_here ↦ rw (none_here, points_to) refl
        | inr (a, points) ↦ rw (points, points_to) (ground (arith, f.tokens_made i a points))
      ]
