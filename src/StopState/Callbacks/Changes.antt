-- ===== src/StopState/Callbacks/Changes.antt =====
-- stdlib/stop_token.hpp: the steps that change the list of callbacks, or the flag of `request_stop`,
-- keep the invariant.
use mathlib.Core.Path.{subst}
use synchronization_library.Prelude.{
  ℕ, ◌≡◌, refl, arith, Bool, true, false, none, List, [], ◌∷◌, ℕ_discrete,
}
use synchronization_library.Threads.{update}
use synchronization_library.StopState.Callbacks.Links.{
  head_slot, construct, push, is_linked, unlink, pop, take_first,
}
use synchronization_library.StopState.Callbacks.Chain.{
  elem, remove, Chain, frame, is_empty, push-Chain, prev-push, take_first-Chain, prev-take_first,
  prev-take_first_self, pop-cons, pop-nil, elem-remove_self, elem-remove_ne,
}
use synchronization_library.StopState.Callbacks.Unlink.{unlink-Chain, prev-unlink}
use synchronization_library.StopState.Callbacks.Run.{
  Phase, not_begun, absent, registered, erasing, waiting, StopState, move, take_next, set_flag,
  is_free,
}
use synchronization_library.StopState.Callbacks.Invariant.{
  will_touch, is_taken, is_executing, Placed, Inv, leave-Inv,
}

module _ (m : StopState) (inv : Inv m) where
  pub construct_registered-Inv :
      (i : ℕ)
      → m.requested ≡ false
      → m.at i ≡ absent
      → Inv (
          move i registered (record m {
            links = push i (construct i m.links);
            has_flag = update m.has_flag i false;
            finished = update m.finished i false;
            runs = update m.runs i 0;
          }))
  construct_registered-Inv i early at = record {
    contents = i ∷ inv.contents;
    chain = push-Chain (construct i m.links) i inv.contents new made;
    placed = λ j. ground (
      arith,
      inv.placed j,
      at,
      new,
      not_yet,
      prev-push (construct i m.links) i j inv.contents made,
    );
    begun = inv.begun;
    emptied = ground (arith, not_yet);
  }
    where
      new : elem i inv.contents ≡ false
      new = ground (arith, inv.placed i, at)

      not_yet : m.phase ≡ not_begun
      not_yet = ground (arith, inv.begun, early)

      made : Chain (construct i m.links) head_slot inv.contents
      made =
          frame m.links (construct i m.links) head_slot inv.contents refl
            (λ a e. (ground (arith, new, e), ground (arith, new, e))) inv.chain

  pub unlink-Inv :
      (i : ℕ)
      → m.at i ≡ registered
      → is_linked i m.links ≡ true
      → Inv (move i absent (record m { links = unlink i m.links }))
  unlink-Inv i at linked = record {
    contents = remove i inv.contents;
    chain = unlink-Chain m.links i inv.contents inside inv.chain;
    placed = placed;
    begun = inv.begun;
    emptied = λ e. rw (inv.emptied e) refl;
  }
    where
      inside : elem i inv.contents ≡ true
      inside = ground (arith, inv.placed i, at, linked)

      placed :
          (j : ℕ)
          → Placed (move i absent (record m { links = unlink i m.links })) (remove i inv.contents) j
      placed j = elim (ℕ_discrete i j) [
        | yes e ↦ ground (
          arith,
          e,
          inv.placed i,
          inside,
          elem-remove_self m.links head_slot i inv.contents inv.chain,
        )
        | no ne ↦ ground (
          arith,
          ne,
          inv.placed j,
          elem-remove_ne i j inv.contents ne,
          prev-unlink m.links i j inv.contents inside inv.chain,
        )
      ]

  pub flag-Inv :
      (i : ℕ)
      → m.at i ≡ erasing
      → m.has_flag i ≡ true
      → Inv (move i absent (record m { phase = set_flag m.phase }))
  flag-Inv i at flagged = record {
    contents = inv.contents;
    chain = inv.chain;
    placed = λ j. ground (arith, inv.placed j, inv.placed i, at, flagged);
    begun = ground (arith, inv.begun);
    emptied = ground (arith, inv.emptied);
  }

  pub leave_free-Inv :
      (i : ℕ)
      → m.at i ≡ erasing
      → m.has_flag i ≡ false
      → is_free m.phase ≡ true
      → Inv (move i absent m)
  leave_free-Inv i at no_flag free =
      leave-Inv m inv i (ground (arith, inv.placed i, at))
        (ground (arith, inv.placed i, at, no_flag, free))

  pub leave_finished-Inv : (i : ℕ) → m.at i ≡ waiting → m.finished i ≡ true → Inv (move i absent m)
  leave_finished-Inv i at over =
      leave-Inv m inv i (ground (arith, inv.placed i, at)) (ground (arith, inv.placed i, at, over))

-- `request_stop` does nothing with a node.
abbrev pub IsQuiet : Phase → Type 0
IsQuiet phase =
    (i : ℕ)
    → (will_touch phase i ≡ false) × (is_taken phase i ≡ false) × (is_executing phase i ≡ false)

is_empty-nil : (xs : List ℕ) → is_empty xs ≡ true → xs ≡ []
is_empty-nil [] e = refl
is_empty-nil (x ∷ xs) e = cc

-- The next node is taken, also by the round that requests the stop.
take_next-cases :
    (m : StopState) (inv : Inv m) (xs : List ℕ)
    → inv.contents ≡ xs
    → IsQuiet m.phase
    → (requested : Bool) → requested ≡ true
    → Inv (take_next (record m { requested = requested }))
unfolding pop
take_next-cases m inv [] e quiet requested on =
    rw (pop-nil m.links chain, take_next)
      (record {
        contents = [];
        chain = chain;
        placed = λ j. ground (arith, placed j, quiet j);
        begun = on;
        emptied = λ _. refl;
      })
  where
    chain : Chain m.links head_slot []
    chain = subst (λ ys. Chain m.links head_slot ys) e inv.chain

    placed : (j : ℕ) → Placed m [] j
    placed = subst (λ ys. (j : ℕ) → Placed m ys j) e inv.placed
take_next-cases m inv (x ∷ xs) e quiet requested on =
    rw (pop-cons m.links x xs chain, take_next)
      (record {
        contents = xs;
        chain = take_first-Chain m.links x xs chain;
        placed = λ j. elim (ℕ_discrete x j) [
          | yes same ↦ rw (← same) (ground (arith, placed x, quiet x, chain.2, unlinked))
          | no ne ↦ ground (arith, ne, placed j, quiet j, prev-take_first m.links x j xs chain)
        ];
        begun = on;
        emptied = is_empty-nil xs;
      })
  where
    chain : Chain m.links head_slot (x ∷ xs)
    chain = subst (λ ys. Chain m.links head_slot ys) e inv.chain

    placed : (j : ℕ) → Placed m (x ∷ xs) j
    placed = subst (λ ys. (j : ℕ) → Placed m ys j) e inv.placed

    unlinked : (take_first x m.links).prev x ≡ none
    unlinked = prev-take_first_self m.links x

pub take_next-Inv :
    (m : StopState)
    → Inv m
    → IsQuiet m.phase
    → (requested : Bool) → requested ≡ true
    → Inv (take_next (record m { requested = requested }))
take_next-Inv m inv quiet = take_next-cases m inv inv.contents refl quiet
