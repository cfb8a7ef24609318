-- ===== src/StopState/Callbacks/Unlink.antt =====
-- stdlib/stop_token.hpp: a callback is taken out from anywhere in the list.
use synchronization_library.Prelude.{
  ℕ, ◌≡◌, ◌≢◌, refl, sym, ap, ◌∙◌, arith, ℕ_discrete, true, false, Option, none, some, List, [],
  ◌∷◌, ◌==◌, Bool-cases, inl, inr,
}
use synchronization_library.StopState.Callbacks.Links.{
  Slot, head_slot, next_of, Links, read, write, point_back, unlink,
}
use synchronization_library.StopState.Callbacks.Chain.{
  Chain, elem, remove, outside, frame, elem-remove,
}

-- What `unlink` does to a chain with the node in it, and that it leaves other nodes and slots as they
-- are.
record Unlinked (l : Links) (cb : ℕ) (s : Slot) (xs : List ℕ) : Type 0 where
  chain : Chain (unlink cb l) s (remove cb xs)
  slots : (t : Slot) → outside t xs ≡ true → t ≢ s → read t (unlink cb l) ≡ read t l
  prevs : (a : ℕ) → elem a xs ≡ false → (unlink cb l).prev a ≡ l.prev a

-- Node and slot are linked to one another, and nothing else changes.
abbrev relink : Option ℕ → Slot → Links → Links
relink p s l = point_back p (some s) (write s p l)

unlink-relink :
    (l : Links) (cb : ℕ) (s : Slot)
    → l.prev cb ≡ some s
    → outside s (cb ∷ []) ≡ true
    → unlink cb l ≡ relink (l.next cb) s l
unfolding unlink
unlink-relink l cb head_slot at out = ground (arith, at)
unlink-relink l cb (next_of a) at out = ground (arith, at)

read-relink_self : (p : Option ℕ) (s : Slot) (l : Links) → read s (relink p s l) ≡ p
read-relink_self none head_slot l = refl
read-relink_self (some a) head_slot l = refl
read-relink_self none (next_of b) l = ground arith
read-relink_self (some a) (next_of b) l = ground arith

read-relink : (p : Option ℕ) (s t : Slot) (l : Links) → t ≢ s → read t (relink p s l) ≡ read t l
read-relink p head_slot head_slot l ne = absurd (ne refl)
read-relink none head_slot (next_of b) l ne = refl
read-relink (some a) head_slot (next_of b) l ne = refl
read-relink none (next_of b) head_slot l ne = refl
read-relink (some a) (next_of b) head_slot l ne = refl
read-relink none (next_of b) (next_of c) l ne = elim (ℕ_discrete b c) [
  | yes e ↦ absurd (ne (ap next_of (sym e)))
  | no other ↦ ground (arith, other)
]
read-relink (some a) (next_of b) (next_of c) l ne = elim (ℕ_discrete b c) [
  | yes e ↦ absurd (ne (ap next_of (sym e)))
  | no other ↦ ground (arith, other)
]

prev-relink :
    (p : Option ℕ) (s : Slot) (a : ℕ) (l : Links) → p ≢ some a → (relink p s l).prev a ≡ l.prev a
prev-relink none head_slot a l ne = refl
prev-relink none (next_of b) a l ne = refl
prev-relink (some c) head_slot a l ne = ground (arith, ne)
prev-relink (some c) (next_of b) a l ne = ground (arith, ne)

prev-relink_self : (a : ℕ) (s : Slot) (l : Links) → (relink (some a) s l).prev a ≡ some s
prev-relink_self a head_slot l = ground arith
prev-relink_self a (next_of b) l = ground arith

outside-ne :
    (s : Slot) (a : ℕ) (xs : List ℕ) → outside s xs ≡ true → elem a xs ≡ true → next_of a ≢ s
outside-ne head_slot a xs out i e = cc
outside-ne (next_of b) a xs out i e = ground (arith, e)

relinked-Chain :
    (l : Links) (s : Slot) (x : ℕ) (xs : List ℕ) (p : Option ℕ)
    → outside s xs ≡ true
    → read (next_of x) l ≡ p
    → Chain l (next_of x) xs
    → Chain (relink p s l) s xs
relinked-Chain l s x [] p out e rest = read-relink_self p s l ∙ sym e ∙ rest
relinked-Chain l s x (y ∷ ys) none out e rest = cc
relinked-Chain l s x (y ∷ ys) (some z) out e rest = (
  ground (arith, read-relink_self (some z) s l),
  rw same (prev-relink_self z s l),
  rest.2,
  frame l (relink (some z) s l) (next_of y) ys
      (read-relink (some z) s (next_of y) l (outside-ne s y (y ∷ ys) out (ground arith)))
      (λ a i. (
        read-relink (some z) s (next_of a) l (outside-ne s a (y ∷ ys) out (ground arith)),
        prev-relink (some z) s a l (λ f. ground (arith, f, same, rest.2, i)),
      ))
      rest.3,
)
  where
    same : y ≡ z
    same = ground (arith, e, rest.0)

outside-cons :
    (s : Slot) (x : ℕ) (xs : List ℕ)
    → outside s (x ∷ xs) ≡ true
    → (outside s xs ≡ true) × (outside s (x ∷ []) ≡ true)
outside-cons head_slot x xs out = (refl, refl)
outside-cons (next_of b) x xs out = (ground arith, ground arith)

next-ne :
    (l : Links) (x : ℕ) (xs : List ℕ) (a : ℕ)
    → Chain l (next_of x) xs
    → elem a xs ≡ false
    → l.next x ≢ some a
next-ne l x [] a c i e = cc
next-ne l x (y ∷ ys) a c i e = ground (arith, e, c.0)

-- The node that a slot leads to is taken out.
unlink_first :
    (l : Links) (s : Slot) (x : ℕ) (xs : List ℕ)
    → outside s (x ∷ xs) ≡ true
    → Chain l s (x ∷ xs)
    → Unlinked l x s (x ∷ xs)
unlink_first l s x xs out c = record {
  chain = rw (e, removed) (relinked-Chain l s x xs (l.next x) out_of refl c.3);
  slots = λ t o ne. rw e (read-relink (l.next x) s t l ne);
  prevs = λ a i. rw e (prev-relink (l.next x) s a l (next-ne l x xs a c.3 (ground (arith, i))));
}
  where
    out_of : outside s xs ≡ true
    out_of = (outside-cons s x xs out).0

    removed : remove x (x ∷ xs) ≡ xs
    removed = ground arith

    e : unlink x l ≡ relink (l.next x) s l
    e = unlink-relink l x s c.1 (outside-cons s x xs out).1

unlink-Unlinked :
    (l : Links) (cb : ℕ) (s : Slot) (xs : List ℕ)
    → outside s xs ≡ true
    → elem cb xs ≡ true
    → Chain l s xs
    → Unlinked l cb s xs
unlink-Unlinked l cb s [] out i c = cc
unlink-Unlinked l cb s (x ∷ xs) out i c = elim (Bool-cases (x == cb)) [
  | inl here ↦ let e : x ≡ cb = ground arith in rw (← e) (unlink_first l s x xs out c)
  | inr further ↦
      later further
        (unlink-Unlinked l cb (next_of x) xs (ground (arith, c.2)) (ground (arith, further)) c.3)
]
  where
    later : (x == cb) ≡ false → Unlinked l cb (next_of x) xs → Unlinked l cb s (x ∷ xs)
    later further u = record {
      chain = rw further (
        u.slots s (outside-cons s x xs out).0
              (λ e. outside-ne s x (x ∷ xs) out (ground arith) (sym e))
            ∙ c.0,
        u.prevs x c.2 ∙ c.1,
        elem-remove x cb xs c.2,
        u.chain,
      );
      slots = λ t o ne.
          u.slots t (outside-cons t x xs o).0
            (λ e. outside-ne t x (x ∷ xs) o (ground arith) (sym e));
      prevs = λ a j. u.prevs a (ground (arith, j));
    }

-- Taking a node out of the callbacks leaves the others, in their order.
pub unlink-Chain :
    (l : Links) (cb : ℕ) (xs : List ℕ)
    → elem cb xs ≡ true
    → Chain l head_slot xs
    → Chain (unlink cb l) head_slot (remove cb xs)
unlink-Chain l cb xs i c = chain
  where
    open (unlink-Unlinked l cb head_slot xs refl i c) use {chain}

-- Which nodes are linked: those of the list.
pub prev-unlink :
    (l : Links) (cb a : ℕ) (xs : List ℕ)
    → elem cb xs ≡ true
    → Chain l head_slot xs
    → elem a xs ≡ false
    → (unlink cb l).prev a ≡ l.prev a
prev-unlink l cb a xs i c out = prevs a out
  where
    open (unlink-Unlinked l cb head_slot xs refl i c) use {prevs}
