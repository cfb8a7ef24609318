-- ===== src/StopState/Fields.antt =====
-- stdlib/stop_token.hpp: `state_` packs two flags and two counts, and its operations act on these.
use synchronization_library.Prelude.{
  ℕ, ◌+◌, ◌-◌, ◌*◌, ◌^◌, ◌<◌, ◌≡◌, ◌≢◌, refl, arith, Bool, true, false, ◌||◌, ◌&&◌, not, none, some,
  ◌==◌, if◌then◌else◌,
}
use synchronization_library.StopState.Word

-- What the word stands for.
pub record Fields : Type 0 where
  pub requested : Bool
  pub locked : Bool
  pub tokens : ℕ
  pub sources : ℕ

abbrev bit : Bool → ℕ
bit b = if b then 1 else 0

abbrev pub pack : Fields → ℕ
pack f = bit f.requested + 2 * bit f.locked + 4 * f.tokens + 2 ^ 33 * f.sources

-- The counts fit their bits, with room for one more.
abbrev pub HasRoom : Fields → Type 0
HasRoom f = (f.tokens + 1 < 2 ^ 31) × (f.sources + 1 < 2 ^ 31)

-- The flags and the test of `stop_possible` read from the word are those of its fields.
pub flags_of_pack :
    (f : Fields)
    → HasRoom f
    → (Word.is_locked (pack f) ≡ f.locked)
      × (Word.stop_requested (pack f) ≡ f.requested)
      × (Word.stop_possible (pack f) ≡ (f.requested || not (f.sources == 0)))
unfolding Word.stop_possible
flags_of_pack f room = ground arith

-- Taking a reference adds one to its count and changes nothing else.
pub increment_of_pack :
    (f : Fields)
    → HasRoom f
    → (Word.increment_token_ref (pack f) ≡ pack (record f { tokens = f.tokens + 1 }))
      × (Word.increment_source_ref (pack f) ≡ pack (record f { sources = f.sources + 1 }))
unfolding Word.increment_token_ref Word.increment_source_ref
increment_of_pack f room = ground arith

-- Giving a token's reference back takes one from the count of tokens, and deletes the state exactly if
-- it was the last reference of all.
pub decrement_token_of_pack :
    (f : Fields)
    → HasRoom f
    → f.tokens ≢ 0
    → Word.decrement_token_ref (pack f)
      ≡ (pack (record f { tokens = f.tokens - 1 }), (f.tokens == 1) && (f.sources == 0))
unfolding Word.decrement_token_ref
decrement_token_of_pack f room some_token = ground arith

-- Giving a source's reference back, the same way.
decrement_source_of_pack :
    (f : Fields)
    → HasRoom f
    → f.sources ≢ 0
    → Word.decrement_source_ref (pack f)
      ≡ (pack (record f { sources = f.sources - 1 }), (f.sources == 1) && (f.tokens == 0))
unfolding Word.decrement_source_ref
decrement_source_of_pack f room some_source = ground arith

-- The operations that take a reference and give one back, and those that unlock.
pub data WordOperation : Type 0 where
  take_token take_source give_token give_source : WordOperation
  unlock unlock_and_take_token unlock_and_give_token : WordOperation

-- The new word, and whether the state is deleted.
abbrev pub run : WordOperation → ℕ → ℕ × Bool
unfolding Word.increment_token_ref Word.increment_source_ref Word.decrement_token_ref
    Word.decrement_source_ref Word.unlock Word.unlock_and_increment_token_ref
    Word.unlock_and_decrement_token_ref
run take_token state = (Word.increment_token_ref state, false)
run take_source state = (Word.increment_source_ref state, false)
run give_token state = Word.decrement_token_ref state
run give_source state = Word.decrement_source_ref state
run unlock state = (Word.unlock state, false)
run unlock_and_take_token state = (Word.unlock_and_increment_token_ref state, false)
run unlock_and_give_token state = Word.unlock_and_decrement_token_ref state

-- What they are to do to the fields: the state goes with the last reference of all.
abbrev pub perform : WordOperation → Fields → Fields × Bool
perform take_token f = (record f { tokens = f.tokens + 1 }, false)
perform take_source f = (record f { sources = f.sources + 1 }, false)
perform give_token f = (record f { tokens = f.tokens - 1 }, f.tokens + f.sources == 1)
perform give_source f = (record f { sources = f.sources - 1 }, f.sources + f.tokens == 1)
perform unlock f = (record f { locked = false }, false)
perform unlock_and_take_token f = (record f { locked = false; tokens = f.tokens + 1 }, false)
perform unlock_and_give_token f =
    (record f { locked = false; tokens = f.tokens - 1 }, f.tokens + f.sources == 1)

-- There is a reference to give back, and a lock to end.
abbrev pub IsAllowed : WordOperation → Fields → Type 0
IsAllowed take_token f = Unit
IsAllowed take_source f = Unit
IsAllowed give_token f = f.tokens ≢ 0
IsAllowed give_source f = f.sources ≢ 0
IsAllowed unlock f = f.locked ≡ true
IsAllowed unlock_and_take_token f = f.locked ≡ true
IsAllowed unlock_and_give_token f = (f.locked ≡ true) × (f.tokens ≢ 0)

last_of_all : (a b : ℕ) → a ≢ 0 → ((a == 1) && (b == 0)) ≡ (a + b == 1)
last_of_all a b some_a = ground arith

-- Each operation on a reference, and each that unlocks, where there is a reference to give back and a
-- lock to end, does to the word what it is to do to its fields: a count moves by one, the flag of the
-- lock is cleared, and the state is deleted exactly when the last reference of all is given back.
pub run_of_pack :
    (operation : WordOperation) (f : Fields)
    → HasRoom f
    → IsAllowed operation f
    → run operation (pack f) ≡ (pack (perform operation f).0, (perform operation f).1)
unfolding run Word.unlock Word.unlock_and_increment_token_ref Word.unlock_and_decrement_token_ref
run_of_pack take_token f room allowed = rw ((increment_of_pack f room).0) (refl)
run_of_pack take_source f room allowed = rw ((increment_of_pack f room).1) (refl)
run_of_pack give_token f room allowed =
    rw (decrement_token_of_pack f room allowed, last_of_all f.tokens f.sources allowed) (refl)
run_of_pack give_source f room allowed =
    rw (decrement_source_of_pack f room allowed, last_of_all f.sources f.tokens allowed) (refl)
run_of_pack unlock f room locked = ground arith
run_of_pack unlock_and_take_token f room locked = ground arith
run_of_pack unlock_and_give_token f room (locked, some_token) =
    rw (← last_of_all f.tokens f.sources some_token) (ground arith)

-- `lock`, `try_request_stop_andlock` and the loop at the head of `try_push_callback`, on every word:
-- each waits for the lock of another thread unless a stop request lets it answer at once, and what it
-- sets are its own bits.
start_of_pack :
    (f : Fields)
    → HasRoom f
    → (Word.lock (pack f) ≡ (if f.locked then none else some (pack (record f { locked = true }))))
      × (Word.try_request_stop_and_lock (pack f) ≡ (
          if f.requested
          then some (false, pack f)
          else (if f.locked
              then none
              else some (true, pack (record f { requested = true; locked = true })))))
      × (Word.try_push_start (pack f) ≡ (
          if f.requested
          then Word.run_now
          else (if f.sources == 0
              then Word.refused
              else (if f.locked
                  then Word.spinning
                  else Word.entered (pack (record f { locked = true }))))))
unfolding Word.lock Word.try_request_stop_and_lock Word.try_push_start
start_of_pack f room = (ground arith, ground arith, ground arith)
