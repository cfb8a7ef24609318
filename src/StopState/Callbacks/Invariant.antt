-- ===== src/StopState/Callbacks/Invariant.antt =====
-- stdlib/stop_token.hpp: what holds of the callbacks between the steps of `request_stop` and of their
-- constructors and destructors.
use synchronization_library.Prelude.{
  ℕ, ◌+◌, ◌≤◌, ◌≡◌, arith, Bool, true, false, ◌||◌, none, List, [], ◌==◌,
}
use synchronization_library.Threads.{update}
use synchronization_library.StopState.Callbacks.Links.{head_slot, is_linked}
use synchronization_library.StopState.Callbacks.Chain.{elem, Chain, is_linked-elem}
use synchronization_library.StopState.Callbacks.Run.{
  Phase, not_begun, taken, executing, finishing, between, ended, Pc, absent, unbound, registered,
  erasing, waiting, StopState, move,
}

-- The object exists and has the state.
abbrev pub is_bound : Pc → Bool
is_bound registered = true
is_bound erasing = true
is_bound waiting = true
is_bound absent = false
is_bound unbound = false

-- `request_stop` will touch the node again in this round.
abbrev pub will_touch : Phase → ℕ → Bool
will_touch (taken cb last) i = cb == i
will_touch (executing cb last false) i = cb == i
will_touch (executing cb last true) i = false
will_touch (finishing cb last) i = cb == i
will_touch (between last) i = false
will_touch not_begun i = false
will_touch ended i = false

abbrev pub is_taken : Phase → ℕ → Bool
is_taken (taken cb last) i = cb == i
is_taken phase i = false

abbrev pub is_executing : Phase → ℕ → Bool
is_executing (executing cb last false) i = cb == i
is_executing phase i = false

-- No node is left after this round.
abbrev pub is_last : Phase → Bool
is_last (taken cb last) = last
is_last (executing cb last removed) = last
is_last (finishing cb last) = last
is_last (between last) = last
is_last not_begun = false
is_last ended = true

abbrev pub is_begun : Phase → Bool
is_begun not_begun = false
is_begun phase = true

-- What holds of the object i.
pub record Placed (m : StopState) (contents : List ℕ) (i : ℕ) : Type 0 where
  pub unlinked : is_bound (m.at i) ≡ true → elem i contents ≡ false → m.links.prev i ≡ none
  pub listed : elem i contents ≡ true → m.at i ≡ registered
  pub unfinished : elem i contents ≡ true → m.finished i ≡ false
  pub untouched : elem i contents ≡ true → will_touch m.phase i ≡ false
  pub not_run : elem i contents || is_taken m.phase i ≡ true → m.runs i ≡ 0
  pub alive : will_touch m.phase i ≡ true → is_bound (m.at i) ≡ true
  pub unfinished_yet : will_touch m.phase i ≡ true → m.finished i ≡ false
  pub flag : is_bound (m.at i) ≡ true → m.has_flag i ≡ is_executing m.phase i
  pub reached :
      is_bound (m.at i) ≡ true
      → elem i contents ≡ false
      → m.finished i || will_touch m.phase i ≡ true
  pub run : is_bound (m.at i) ≡ true → elem i contents || is_taken m.phase i ≡ false → m.runs i ≡ 1
  pub once : m.runs i ≤ 1

pub record Inv (m : StopState) : Type 0 where
  pub contents : List ℕ
  pub chain : Chain m.links head_slot contents
  pub placed : (i : ℕ) → Placed m contents i
  pub begun : m.requested ≡ is_begun m.phase
  pub emptied : is_last m.phase ≡ true → contents ≡ []

-- The changes that leave the list as it is.
module _ (m : StopState) (inv : Inv m) where
  pub construct_unbound-Inv :
      (i : ℕ) (runs : ℕ)
      → m.at i ≡ absent
      → runs ≤ 1
      → Inv (move i unbound (record m { runs = update m.runs i runs }))
  construct_unbound-Inv i runs at le = record {
    contents = inv.contents;
    chain = inv.chain;
    placed = λ j. ground (arith, inv.placed j, at);
    begun = inv.begun;
    emptied = inv.emptied;
  }

  pub execute-Inv :
      (cb : ℕ) (last : Bool)
      → m.phase ≡ taken cb last
      → Inv (record m {
        has_flag = update m.has_flag cb true;
        runs = update m.runs cb (m.runs cb + 1);
        phase = executing cb last false;
      })
  execute-Inv cb last at = record {
    contents = inv.contents;
    chain = inv.chain;
    placed = λ j. ground (arith, inv.placed j, at);
    begun = ground (arith, inv.begun, at);
    emptied = ground (arith, inv.emptied, at);
  }

  pub clear_flag-Inv :
      (cb : ℕ) (last : Bool)
      → m.phase ≡ executing cb last false
      → Inv (record m { has_flag = update m.has_flag cb false; phase = finishing cb last })
  clear_flag-Inv cb last at = record {
    contents = inv.contents;
    chain = inv.chain;
    placed = λ j. ground (arith, inv.placed j, at);
    begun = ground (arith, inv.begun, at);
    emptied = ground (arith, inv.emptied, at);
  }

  pub skip-Inv :
      (cb : ℕ) (last : Bool)
      → m.phase ≡ executing cb last true
      → Inv (record m { phase = between last })
  skip-Inv cb last at = record {
    contents = inv.contents;
    chain = inv.chain;
    placed = λ j. ground (arith, inv.placed j, at);
    begun = ground (arith, inv.begun, at);
    emptied = ground (arith, inv.emptied, at);
  }

  pub finish-Inv :
      (cb : ℕ) (last : Bool)
      → m.phase ≡ finishing cb last
      → Inv (record m { finished = update m.finished cb true; phase = between last })
  finish-Inv cb last at = record {
    contents = inv.contents;
    chain = inv.chain;
    placed = λ j. ground (arith, inv.placed j, at);
    begun = ground (arith, inv.begun, at);
    emptied = ground (arith, inv.emptied, at);
  }

  pub end-Inv : m.phase ≡ between true → Inv (record m { phase = ended })
  end-Inv at = record {
    contents = inv.contents;
    chain = inv.chain;
    placed = λ j. ground (arith, inv.placed j, at);
    begun = ground (arith, inv.begun, at);
    emptied = ground (arith, inv.emptied, at);
  }

  pub erase_unlinked-Inv :
      (i : ℕ) → m.at i ≡ registered → is_linked i m.links ≡ false → Inv (move i erasing m)
  erase_unlinked-Inv i at not_linked = record {
    contents = inv.contents;
    chain = inv.chain;
    placed = λ j.
        ground (arith, inv.placed j, at, is_linked-elem m.links i head_slot inv.contents inv.chain);
    begun = inv.begun;
    emptied = inv.emptied;
  }

  pub wait-Inv : (i : ℕ) → m.at i ≡ erasing → Inv (move i waiting m)
  wait-Inv i at = record {
    contents = inv.contents;
    chain = inv.chain;
    placed = λ j. ground (arith, inv.placed j, at);
    begun = inv.begun;
    emptied = inv.emptied;
  }

  pub leave-Inv :
      (i : ℕ) → elem i inv.contents ≡ false → will_touch m.phase i ≡ false → Inv (move i absent m)
  leave-Inv i out idle = record {
    contents = inv.contents;
    chain = inv.chain;
    placed = λ j. ground (arith, inv.placed j, out, idle);
    begun = inv.begun;
    emptied = inv.emptied;
  }
