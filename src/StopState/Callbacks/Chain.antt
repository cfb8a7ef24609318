-- ===== src/StopState/Callbacks/Chain.antt =====
-- stdlib/stop_token.hpp: the links of the callbacks are a list, and a push and a take at its head are those
-- of a stack.
use synchronization_library.Prelude.{
  ℕ, ◌≡◌, ◌≢◌, refl, ap, arith, Bool, true, false, not, ◌||◌, Option, none, some, List, [], ◌∷◌,
  ◌==◌, if◌then◌else◌, Bool-cases, inl, inr,
}
use synchronization_library.StopState.Callbacks.Links.{
  Slot, head_slot, next_of, Links, read, point_back, push, is_linked, pop, take_first,
}

abbrev pub elem : ℕ → List ℕ → Bool
elem a [] = false
elem a (x ∷ xs) = (x == a) || elem a xs

abbrev pub remove : ℕ → List ℕ → List ℕ
remove a [] = []
remove a (x ∷ xs) = if x == a then xs else x ∷ remove a xs

-- From the slot s the `next_` pointers lead through the nodes `xs`, all different, to null, and each
-- node's `prev_` points to the slot that it was reached from.
abbrev pub Chain : Links → Slot → List ℕ → Type 0
Chain l s [] = read s l ≡ none
Chain l s (x ∷ xs) =
    (read s l ≡ some x) × (l.prev x ≡ some s) × (elem x xs ≡ false) × Chain l (next_of x) xs

-- A slot that is in none of the nodes.
abbrev pub outside : Slot → List ℕ → Bool
outside head_slot xs = true
outside (next_of a) xs = not (elem a xs)

-- A chain survives any change that spares its nodes and its first slot.
pub frame :
    (l l' : Links) (s : Slot) (xs : List ℕ)
    → read s l' ≡ read s l
    → ((a : ℕ) → elem a xs ≡ true → (l'.next a ≡ l.next a) × (l'.prev a ≡ l.prev a))
    → Chain l s xs
    → Chain l' s xs
frame l l' s [] first same c = ground (arith, first)
frame l l' s (x ∷ xs) first same c = (
  ground (arith, first),
  ground (arith, same x),
  c.2,
  frame l l' (next_of x) xs (ground (arith, same x)) (λ a i. same a (ground arith)) c.3,
)

pub push-Chain :
    (l : Links) (cb : ℕ) (xs : List ℕ)
    → elem cb xs ≡ false
    → Chain l head_slot xs
    → Chain (push cb l) head_slot (cb ∷ xs)
unfolding push
push-Chain l cb [] new c = rw c (refl, ground arith, refl, ground arith)
push-Chain l cb (y ∷ ys) new c = rw c.0 (
  refl,
  ground arith,
  new,
  (
    ground arith,
    ground arith,
    c.2,
    frame l _ (next_of y) ys (ground arith) (λ a i. ground arith) c.3,
  ),
)

pub elem-remove : (a b : ℕ) (xs : List ℕ) → elem a xs ≡ false → elem a (remove b xs) ≡ false
elem-remove a b [] i = refl
elem-remove a b (x ∷ xs) i = ground (arith, elem-remove a b xs)

abbrev pub is_empty : List ℕ → Bool
is_empty [] = true
is_empty (x ∷ xs) = false

next-point_back : (p : Option ℕ) (s : Option Slot) (l : Links) → (point_back p s l).next ≡ l.next
next-point_back none s l = refl
next-point_back (some a) s l = refl

-- `request_stop` takes the first node of the list.
pub take_first-Chain :
    (l : Links) (x : ℕ) (xs : List ℕ)
    → Chain l head_slot (x ∷ xs)
    → Chain (take_first x l) head_slot xs
unfolding take_first
take_first-Chain l x [] c = rw (c.3, point_back) refl
take_first-Chain l x (y ∷ ys) c =
    rw (c.3.0, point_back)
      (
        refl,
        ground (arith, c.2),
        c.3.2,
        frame l (take_first x l) (next_of y) ys (ap (λ f. f y) same)
            (λ a i. (ap (λ f. f a) same, rw (c.3.0, point_back) (ground (arith, c.2, c.3.2, i))))
            c.3.3,
      )
  where
    same : (take_first x l).next ≡ l.next
    same = next-point_back (l.next x) (some head_slot) (record l { head = l.next x })

pub prev-take_first :
    (l : Links) (x a : ℕ) (xs : List ℕ)
    → Chain l head_slot (x ∷ xs)
    → elem a (x ∷ xs) ≡ false
    → (take_first x l).prev a ≡ l.prev a
unfolding take_first
prev-take_first l x a [] c out = rw (c.3, point_back) (ground (arith, out))
prev-take_first l x a (y ∷ ys) c out = rw (c.3.0, point_back) (ground (arith, out))

pub pop-cons :
    (l : Links) (x : ℕ) (xs : List ℕ)
    → Chain l head_slot (x ∷ xs)
    → pop l ≡ some (x, is_empty xs, take_first x l)
unfolding pop
pop-cons l x [] c = rw (c.0, c.3, pop) refl
pop-cons l x (y ∷ ys) c = rw (c.0, c.3.0, pop) refl

-- A node is linked exactly if it is in the list.
pub is_linked-elem :
    (l : Links) (a : ℕ) (s : Slot) (xs : List ℕ)
    → Chain l s xs
    → elem a xs ≡ true
    → is_linked a l ≡ true
is_linked-elem l a s [] c i = cc
is_linked-elem l a s (x ∷ xs) c i = elim (Bool-cases (x == a)) [
  | inl here ↦ let e : x ≡ a = ground arith in rw (← e, c.1, is_linked) refl
  | inr further ↦ is_linked-elem l a (next_of x) xs c.3 (ground (arith, further))
]

pub prev-push :
    (l : Links) (cb a : ℕ) (xs : List ℕ)
    → Chain l head_slot xs
    → elem a (cb ∷ xs) ≡ false
    → (push cb l).prev a ≡ l.prev a
unfolding push
prev-push l cb a [] c out = rw (c, point_back) (ground (arith, out))
prev-push l cb a (y ∷ ys) c out = rw (c.0, point_back) (ground (arith, out))

pub elem-remove_self :
    (l : Links) (s : Slot) (a : ℕ) (xs : List ℕ) → Chain l s xs → elem a (remove a xs) ≡ false
elem-remove_self l s a [] c = refl
elem-remove_self l s a (x ∷ xs) c = ground (arith, c.2, elem-remove_self l (next_of x) a xs c.3)

pub elem-remove_ne : (a b : ℕ) (xs : List ℕ) → a ≢ b → elem b (remove a xs) ≡ elem b xs
elem-remove_ne a b [] ne = refl
elem-remove_ne a b (x ∷ xs) ne = ground (arith, elem-remove_ne a b xs)

pub pop-nil : (l : Links) → Chain l head_slot [] → pop l ≡ none
unfolding pop
pop-nil l c = rw (c, pop) refl

pub prev-take_first_self : (l : Links) (x : ℕ) → (take_first x l).prev x ≡ none
unfolding take_first
prev-take_first_self l x = ground arith
