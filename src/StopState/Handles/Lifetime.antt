-- ===== src/StopState/Handles/Lifetime.antt =====
-- stdlib/stop_token.hpp: the count of tokens of a stop state is that of the `stop_token` objects.
use mathlib.Core.Path.{subst}
use synchronization_library.Prelude.{
  ℕ, ◌+◌, ◌^◌, ◌<◌, ◌≡◌, refl, ap, ◌∙◌, arith, false, Option, none, some, List, [], ◌∷◌, ◌==◌,
  Bool-cases, Option-cases, inl, inr,
}
use synchronization_library.Threads.{total}
use synchronization_library.StopState.Fields.{pack}
use synchronization_library.StopState.Handles.Use.{
  Objects, Use, copy_token, move_token, assign_token, move_assign_token, swap_tokens, get_token,
  destroy_token, destroy_source, make_source, copy_source, move_source, assign_source,
  move_assign_source, swap_sources, set_token, set_source, add_token, add_source, make_state,
  is_same, if_absent, perform, perform_all, perform_on_source, initial,
}
use synchronization_library.StopState.Handles.Counts.{
  points_to, counted, Right, Inv, set_token-Inv, set_source-Inv, add_token-Inv, drop_token-Inv,
  add_source-Inv, tokens-add_token,
}
use synchronization_library.StopState.Handles.Changes.{
  new_token-Inv, copied_source-Inv, swapped_tokens-Inv, make_state-Inv,
}

-- The objects that a call names are among the first n.
abbrev pub IsWithin : ℕ → Use → Type 0
IsWithin n (copy_token i j) = (i < n) × (j < n)
IsWithin n (move_token i j) = (i < n) × (j < n)
IsWithin n (assign_token i j) = (i < n) × (j < n)
IsWithin n (move_assign_token i j) = (i < n) × (j < n)
IsWithin n (swap_tokens i j) = (i < n) × (j < n)
IsWithin n (get_token i j) = i < n
IsWithin n (destroy_token i) = i < n
IsWithin n call = Unit

abbrev Kept : ℕ → Option Objects → Type 0
Kept n none = Unit
Kept n (some o) = Inv n o none

if_absent-Kept :
    (n : ℕ) (p : Option ℕ) (o : Objects) → (p ≡ none → Inv n o none) → Kept n (if_absent p o)
if_absent-Kept n none o kept = kept refl
if_absent-Kept n (some a) o kept = tt

perform-Inv :
    (n : ℕ)
    → n + 4 < 2 ^ 31
    → (u : Use) (o : Objects) → IsWithin n u
    → Inv n o none
    → Kept n (perform u o)
unfolding perform perform_on_source
perform-Inv n few (copy_token i j) o (i_lt, j_lt) inv = if_absent-Kept n (o.tokens i) _ (λ absent.
    new_token-Inv n few (add_token (o.tokens j) o) (o.tokens j) i i_lt
      (ap (λ f. f i) (tokens-add_token (o.tokens j) o) ∙ absent)
      (add_token-Inv n few o (o.tokens j) (λ room. (inv room).tokens_made j) inv))
perform-Inv n few (get_token i j) o i_lt inv = if_absent-Kept n (o.tokens i) _ (λ absent.
    new_token-Inv n few (add_token (o.sources j) o) (o.sources j) i i_lt
      (ap (λ f. f i) (tokens-add_token (o.sources j) o) ∙ absent)
      (add_token-Inv n few o (o.sources j) (λ room. (inv room).sources_made j) inv))
perform-Inv n few (move_token i j) o (i_lt, j_lt) inv = if_absent-Kept n (o.tokens i) _ (λ absent.
    new_token-Inv n few (set_token j none o) (o.tokens j) i i_lt (left absent)
      (set_token-Inv n few o none j j_lt inv))
  where
    left : o.tokens i ≡ none → (set_token j none o).tokens i ≡ none
    left absent = elim (Bool-cases (j == i)) [
      | inl here ↦ rw here refl
      | inr other ↦ rw other absent
    ]
perform-Inv n few (assign_token i j) o (i_lt, j_lt) inv =
    elim (Bool-cases (is_same (o.tokens i) (o.tokens j))) [
      | inl same ↦ rw (same, Kept) inv
      | inr different ↦
          rw (different, Kept)
            (drop_token-Inv n few (set_token i (o.tokens j) (add_token (o.tokens j) o)) (o.tokens i)
              exchanged)
    ]
  where
    exchanged : Inv n (set_token i (o.tokens j) (add_token (o.tokens j) o)) (o.tokens i)
    exchanged =
        subst (λ f. Inv n (set_token i (o.tokens j) (add_token (o.tokens j) o)) (f i))
          (tokens-add_token (o.tokens j) o)
          (set_token-Inv n few (add_token (o.tokens j) o) (o.tokens j) i i_lt
            (add_token-Inv n few o (o.tokens j) (λ room. (inv room).tokens_made j) inv))
perform-Inv n few (move_assign_token i j) o (i_lt, j_lt) inv =
    drop_token-Inv n few (set_token i (o.tokens j) moved) (moved.tokens i)
      (set_token-Inv n few moved (o.tokens j) i i_lt (set_token-Inv n few o none j j_lt inv))
  where
    moved : Objects
    moved = set_token j none o
perform-Inv n few (swap_tokens i j) o (i_lt, j_lt) inv =
    swapped_tokens-Inv n few o i j i_lt j_lt inv
perform-Inv n few (destroy_token i) o i_lt inv =
    drop_token-Inv n few (set_token i none o) (o.tokens i) (set_token-Inv n few o none i i_lt inv)
perform-Inv n few (make_source i) o within inv = if_absent-Kept n (o.sources i) _ (λ absent.
    set_source-Inv n few (make_state o) none (some o.made) i (λ room k e. ground arith)
      (make_state-Inv n few o inv))
perform-Inv n few (copy_source i j) o within inv =
    if_absent-Kept n (o.sources i) _ (λ absent. copied_source-Inv n few o i j inv)
perform-Inv n few (move_source i j) o within inv = if_absent-Kept n (o.sources i) _ (λ absent.
    set_source-Inv n few (set_source j none o) none (o.sources j) i
      (λ room. (inv room).sources_made j) (set_source-Inv n few o none none j (λ room k e. cc) inv))
perform-Inv n few (assign_source i j) o within inv =
    elim (Bool-cases (is_same (o.sources i) (o.sources j))) [
      | inl same ↦ rw (same, Kept) inv
      | inr different ↦
          rw (different, Kept)
            (add_source-Inv n few (set_source i (o.sources j) (add_source (o.sources j) o))
              (o.sources i) none (copied_source-Inv n few o i j inv))
    ]
perform-Inv n few (move_assign_source i j) o within inv =
    add_source-Inv n few (set_source i (o.sources j) moved) (moved.sources i) none (
      set_source-Inv n few moved none (o.sources j) i (λ room. (inv room).sources_made j)
        (set_source-Inv n few o none none j (λ room k e. cc) inv))
  where
    moved : Objects
    moved = set_source j none o
perform-Inv n few (swap_sources i j) o within inv =
    set_source-Inv n few (set_source i (o.sources j) o) none (o.sources i) j
      (λ room. (inv room).sources_made i)
      (set_source-Inv n few o none (o.sources j) i (λ room. (inv room).sources_made j) inv)
perform-Inv n few (destroy_source i) o within inv =
    add_source-Inv n few (set_source i none o) (o.sources i) none
      (set_source-Inv n few o none none i (λ room k e. cc) inv)

abbrev pub AreWithin : ℕ → List Use → Type 0
AreWithin n [] = Unit
AreWithin n (u ∷ us) = IsWithin n u × AreWithin n us

perform_all-Inv :
    (n : ℕ)
    → n + 4 < 2 ^ 31
    → (us : List Use) (o : Objects) → AreWithin n us
    → Inv n o none
    → Kept n (perform_all us o)
unfolding perform_all
perform_all-Inv n few [] o within inv = inv
perform_all-Inv n few (u ∷ us) o within inv = elim (Option-cases (perform u o)) [
  | inl refused ↦ rw (refused, Kept) tt
  | inr (o', done) ↦
      rw (done, Kept)
        (perform_all-Inv n few us o' within.1
          (subst (Kept n) done (perform-Inv n few u o within.0 inv)))
]

-- However a program makes, copies, moves, assigns, swaps and destroys `n` objects of `stop_token`, and
-- any of `stop_source`, as long as the counts have room: the word of each state that was made counts
-- the token objects that point to it, and at least one source, and no state is deleted.
pub tokens_counted :
    (n : ℕ) (us : List Use) (o : Objects)
    → n + 4 < 2 ^ 31
    → AreWithin n us
    → perform_all us initial ≡ some o
    → o.additions + 2 < 2 ^ 31
    → (k : ℕ) → k < o.made
    → (sources : ℕ) × (0 < sources)
      × (o.deleted k ≡ false)
      × (o.words k ≡ pack (counted (total (points_to k) n o.tokens) sources))
tokens_counted n us o few within done room k made =
    (r.sources, r.some_source, r.alive, r.word ∙ ap (λ t. pack (counted t r.sources)) (omega arith))
  where
    start : Inv n initial none
    start room = record {
      tokens_made = λ i k e. cc;
      sources_made = λ i k e. cc;
      temp_made = λ k e. cc;
      right = λ k lt. absurd (omega arith);
    }

    r : Right n o none k
    r = (subst (Kept n) done (perform_all-Inv n few us initial within start) room).right k made
