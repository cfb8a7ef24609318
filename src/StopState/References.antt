-- ===== src/StopState/References.antt =====
-- stdlib/stop_token.hpp: the references that `stop_source` and `stop_token` objects hold on one
-- `_stop_state`, and when it is deleted.
use synchronization_library.Prelude.{
  ℕ, ◌+◌, ◌-◌, ◌^◌, ◌<◌, ◌≡◌, refl, arith, Bool, true, false, ◌&&◌, ◌==◌, List, [], ◌∷◌, length,
}
use synchronization_library.StopState.Word
use synchronization_library.StopState.Fields.{
  Fields, pack, flags_of_pack, increment_of_pack, decrement_token_of_pack,
}

-- What objects do with the state that they share: a source is copied or destroyed, a token is made
-- (by `get_token`, or as a copy) or destroyed.
data Use : Type 0 where
  copy_source destroy_source make_token destroy_token : Use

-- The word after the use, and whether the state was deleted. `~stop_source` calls
-- `increment_source_ref`.
unfoldable use_word : Use → ℕ → ℕ × Bool
use_word copy_source state = (Word.increment_source_ref state, false)
use_word destroy_source state = (Word.increment_source_ref state, false)
use_word make_token state = (Word.increment_token_ref state, false)
use_word destroy_token state = Word.decrement_token_ref state

stop_if_deleted : ℕ × Bool → ℕ × Bool → ℕ × Bool
stop_if_deleted (state, true) rest = (state, true)
stop_if_deleted (state, false) rest = rest

-- The uses in order, until one deletes the state.
unfoldable use_all : List Use → ℕ → ℕ × Bool
unfolding stop_if_deleted
use_all [] state = (state, false)
use_all (u ∷ us) state = stop_if_deleted (use_word u state) (use_all us (use_word u state).0)

-- The state is alive, with at least one source.
abbrev IsKept : ℕ × Bool → Type 0
IsKept (state, deleted) = (deleted ≡ false) × (Word.stop_possible state ≡ true)

stop_if_deleted-IsKept :
    (r rest : ℕ × Bool) (state : ℕ) (deleted : Bool)
    → r ≡ (state, deleted)
    → deleted ≡ false
    → IsKept rest
    → IsKept (stop_if_deleted r rest)
unfolding stop_if_deleted
stop_if_deleted-IsKept r rest state deleted e alive kept = rw (e, alive) kept

-- Only tokens that exist are destroyed, `tokens` of them at the start.
abbrev IsBalanced : ℕ → List Use → Type 0
IsBalanced tokens [] = Unit
IsBalanced tokens (copy_source ∷ us) = IsBalanced tokens us
IsBalanced tokens (destroy_source ∷ us) = IsBalanced tokens us
IsBalanced tokens (make_token ∷ us) = IsBalanced (tokens + 1) us
IsBalanced tokens (destroy_token ∷ us) = (0 < tokens) × IsBalanced (tokens - 1) us

use_all-IsKept :
    (us : List Use) (f : Fields)
    → 0 < f.sources
    → f.sources + length us + 1 < 2 ^ 31
    → f.tokens + length us + 1 < 2 ^ 31
    → IsBalanced f.tokens us
    → IsKept (use_all us (pack f))
unfolding use_all use_word
use_all-IsKept [] f some_source s t b =
    (refl, rw ((flags_of_pack f (omega arith)).2) (ground arith))
use_all-IsKept (copy_source ∷ us) f some_source s t b = rw ((increment_of_pack f (omega arith)).1) (
    use_all-IsKept us (record f { sources = f.sources + 1 }) (omega arith) (omega arith)
      (omega arith) b)
use_all-IsKept (destroy_source ∷ us) f some_source s t b =
    rw ((increment_of_pack f (omega arith)).1) (
      use_all-IsKept us (record f { sources = f.sources + 1 }) (omega arith) (omega arith)
        (omega arith) b)
use_all-IsKept (make_token ∷ us) f some_source s t b = rw ((increment_of_pack f (omega arith)).0) (
    use_all-IsKept us (record f { tokens = f.tokens + 1 }) (omega arith) (omega arith) (omega arith)
      b)
use_all-IsKept (destroy_token ∷ us) f some_source s t b =
    stop_if_deleted-IsKept (Word.decrement_token_ref (pack f)) _ _ _ given_back not_last (
      rw given_back (
        use_all-IsKept us (record f { tokens = f.tokens - 1 }) (omega arith) (omega arith)
          (omega arith) b.1))
  where
    not_last : ((f.tokens == 1) && (f.sources == 0)) ≡ false
    not_last = ground arith

    given_back :
        Word.decrement_token_ref (pack f)
        ≡ (pack (record f { tokens = f.tokens - 1 }), (f.tokens == 1) && (f.sources == 0))
    given_back = decrement_token_of_pack f (omega arith) (omega arith)

-- However sources and tokens are copied and destroyed after a source has made the state, the last
-- source included: the state is never deleted, and `stop_possible` stays true. For the destructor of
-- a source adds a reference where it should give one back.
never_deleted :
    (us : List Use)
    → length us + 2 < 2 ^ 31
    → IsBalanced 0 us
    → ((use_all us Word.initial).1 ≡ false)
      × (Word.stop_possible (use_all us Word.initial).0 ≡ true)
never_deleted us short b =
    use_all-IsKept us (record { requested = false; locked = false; tokens = 0; sources = 1 })
      (omega arith) (omega arith) (omega arith) b
