-- ===== src/StopState/Word.antt =====
-- stdlib/stop_token.hpp, struct `_stop_state`: what its atomic operations do to the 64-bit `state_`.
-- A read-modify-write that may end in `delete this` answers whether it does.
use synchronization_library.Prelude.{
  ℕ, ◌+◌, ◌-◌, ◌*◌, ◌/◌, ◌%◌, ◌^◌, Bool, true, false, ◌||◌, Option, none, some, ◌==◌, ltb, leb,
  if◌then◌else◌,
}

abbrev pub stop_requested_bit : ℕ
stop_requested_bit = 1

abbrev pub locked_bit : ℕ
locked_bit = 2

abbrev pub token_increment : ℕ
token_increment = 4

abbrev pub source_increment : ℕ
source_increment = 2 ^ 33

-- A new `_stop_state`: one source.
abbrev pub initial : ℕ
initial = source_increment

abbrev fetch_add : ℕ → ℕ → ℕ
fetch_add state n = (state + n) % 2 ^ 64

abbrev fetch_sub : ℕ → ℕ → ℕ
fetch_sub state n = (state + 2 ^ 64 - n) % 2 ^ 64

-- `(state & locked_bit_) != 0`
abbrev pub is_locked : ℕ → Bool
is_locked state = state / 2 % 2 == 1

-- `(state & stop_requested_bit_) != 0`
abbrev pub stop_requested : ℕ → Bool
stop_requested state = state % 2 == 1

unfoldable pub stop_possible : ℕ → Bool
stop_possible state = stop_requested state || leb source_increment state

-- `past_state | locked_bit_` and `past_state | stop_requested_bit_ | locked_bit_`: a bit that is clear
-- is added.
abbrev set_locked : ℕ → ℕ
set_locked state = state + locked_bit * (1 - state / 2 % 2)

abbrev set_both : ℕ → ℕ
set_both state = set_locked state + stop_requested_bit * (1 - state % 2)

unfoldable pub increment_token_ref : ℕ → ℕ
increment_token_ref state = fetch_add state token_increment

unfoldable pub decrement_token_ref : ℕ → ℕ × Bool
decrement_token_ref state =
    (fetch_sub state token_increment, ltb state (token_increment + token_increment))

unfoldable pub increment_source_ref : ℕ → ℕ
increment_source_ref state = fetch_add state source_increment

unfoldable pub decrement_source_ref : ℕ → ℕ × Bool
decrement_source_ref state =
    (fetch_sub state source_increment, ltb state (token_increment + source_increment))

-- The spin of `lock`; `none` while another thread has the bit.
unfoldable pub lock : ℕ → Option ℕ
lock state = if is_locked state then none else some (set_locked state)

-- `fetch_and(~locked_bit_)`
unfoldable pub unlock : ℕ → ℕ
unlock state = state - locked_bit * (state / 2 % 2)

-- `fetch_sub(locked_bit_ - stop_token_increment_)`, with that difference in 64 bits.
unfoldable pub unlock_and_increment_token_ref : ℕ → ℕ
unlock_and_increment_token_ref state =
    fetch_sub state ((locked_bit + 2 ^ 64 - token_increment) % 2 ^ 64)

unfoldable pub unlock_and_decrement_token_ref : ℕ → ℕ × Bool
unlock_and_decrement_token_ref state = (
  fetch_sub state (locked_bit + token_increment),
  ltb state (locked_bit + token_increment + token_increment),
)

-- `some (true, _)` has set both bits, `some (false, _)` finds a stop requested, and `none` spins.
unfoldable pub try_request_stop_and_lock : ℕ → Option (Bool × ℕ)
try_request_stop_and_lock state =
    if stop_requested state
    then some (false, state)
    else (if is_locked state then none else some (true, set_both state))

pub data PushStart : Type 0 where
  run_now : PushStart  -- a stop is requested: the callback runs at once
  refused : PushStart  -- no stop can come any more
  spinning : PushStart
  entered : ℕ → PushStart  -- has the lock, with the word then

-- The loop at the head of `try_push_callback`.
unfoldable pub try_push_start : ℕ → PushStart
unfolding stop_possible
try_push_start state =
    if stop_requested state
    then run_now
    else (if stop_possible state
        then (if is_locked state then spinning else entered (set_locked state))
        else refused)
