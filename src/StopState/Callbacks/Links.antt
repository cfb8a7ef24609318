-- ===== src/StopState/Callbacks/Links.antt =====
-- stdlib/stop_token.hpp: the list of callbacks. A node is a number, and a null pointer is `none`.
use synchronization_library.Prelude.{ℕ, Bool, true, false, Option, none, some}
use synchronization_library.Threads.{update}

-- What a `_stop_callback_node**` points to: `head_`, or the `next_` of a node.
pub data Slot : Type 0 where
  head_slot : Slot
  next_of : ℕ → Slot

-- `head_`, and the `next_` and `prev_` of each node.
pub record Links : Type 0 where
  pub head : Option ℕ
  pub next : ℕ → Option ℕ
  pub prev : ℕ → Option Slot

abbrev pub read : Slot → Links → Option ℕ
read head_slot l = l.head
read (next_of a) l = l.next a

abbrev pub write : Slot → Option ℕ → Links → Links
write head_slot p l = record l { head = p }
write (next_of a) p l = record l { next = update l.next a p }

-- `if (p != nullptr) p->prev_ = s;`
abbrev pub point_back : Option ℕ → Option Slot → Links → Links
point_back none s l = l
point_back (some a) s l = record l { prev = update l.prev a s }

-- The fields of a new node.
abbrev pub construct : ℕ → Links → Links
construct cb l = record l { next = update l.next cb none; prev = update l.prev cb none }

-- The end of `try_push_callback`, under the lock.
unfoldable pub push : ℕ → Links → Links
push cb l =
    let linked =
      point_back l.head (some (next_of cb)) (record l { next = update l.next cb l.head }) in
    record linked { head = some cb; prev = update linked.prev cb (some head_slot) }

-- `cb->prev_ != nullptr`
abbrev pub is_linked : ℕ → Links → Bool
is_linked cb l = elim (l.prev cb) [ none ↦ false | some s ↦ true ]

-- What `erase_callback` does under the lock if the node is linked.
unfoldable pub unlink : ℕ → Links → Links
unlink cb l = elim (l.prev cb) [
  | none ↦ l
  | some s ↦ let out = write s (l.next cb) l in point_back (out.next cb) (out.prev cb) out
]

abbrev pub is_null : Option ℕ → Bool
is_null none = true
is_null (some a) = false

-- `head_` moves on from the node, whose `prev_` becomes null.
unfoldable pub take_first : ℕ → Links → Links
take_first cb l =
    let rest = point_back (l.next cb) (some head_slot) (record l { head = l.next cb }) in
    record rest { prev = update rest.prev cb none }

-- What a round of `request_stop` does under the lock: the node that it takes, and whether that leaves
-- the list empty. `none` is an empty list.
unfoldable pub pop : Links → Option (ℕ × Bool × Links)
unfolding take_first
pop l = elim l.head [ none ↦ none | some cb ↦ some (cb, is_null (l.next cb), take_first cb l) ]
