-- ===== src/Tests/Thread.antt =====
-- `thread` (stdlib/_thread.hpp) and `jthread` (stdlib/thread.hpp) at concrete programs.
use synchronization_library.Prelude.{◌≡◌, ◌≤◌, ◌⊎◌, refl, arith, true, List, [], ◌∷◌}
use synchronization_library.Threads.{total}
use synchronization_library.Thread.Base
use synchronization_library.Thread.Base.{ThreadObjects, ok, waits, terminated, running}
use synchronization_library.Thread.Owners.{has, owners, handle_owners}
use synchronization_library.Thread.Jthread
use synchronization_library.Thread.Jthread.{Jthreads}
use synchronization_library.Thread.Joined.{HasJoined, Waits, destroy_joins}

-- Two threads; the first is moved, ends and is joined, and the second detached. A third thread gets the
-- handle of the first.
abbrev calls : List Base.Call
calls =
    Base.construct 0 7
    ∷ Base.construct 1 8
    ∷ Base.move_construct 2 0
    ∷ Base.ends 7
    ∷ Base.join 2
    ∷ Base.detach 1
    ∷ Base.swap 0 1
    ∷ Base.construct 2 7
    ∷ []

abbrev left : ThreadObjects
unfolding Base.perform_all
left = elim (Base.perform_all true calls Base.initial) [ ok t ↦ t | _ ↦ Base.initial ]

ran : Base.perform_all true calls Base.initial ≡ ok left
unfolding Base.perform_all
ran = refl

-- The thread that was detached is still in object 0, whose destructor ends the program.
destroys_detached : Base.perform true (Base.destroy 0) left ≡ terminated
unfolding Base.perform_all
destroys_detached = refl

handle_owners_example :
    (owners (left.native 8) ≤ total (has 8) 3 left.handle)
    × ((left.stale 8 ≡ true) ⊎ (total (has 8) 3 left.handle ≡ owners (left.native 8)))
unfolding Base.perform_all
handle_owners_example = handle_owners 3 true calls left (omega arith) ran 8 (omega arith)

-- When the detached thread has ended, a new one may get its handle, which two objects then have.
abbrev reused : ThreadObjects
unfolding Base.perform_all
reused = elim (Base.perform_all true (Base.ends 8 ∷ Base.construct 1 8 ∷ []) left) [
  | ok t ↦ t
  | _ ↦ Base.initial
]

two_have_it : (total (has 8) 3 reused.handle ≡ 2) × (reused.native 8 ≡ running)
unfolding Base.perform_all total
two_have_it = (refl, refl)

-- A join of a thread that runs waits.
join_waits : Base.perform true (Base.join 2) left ≡ waits left
unfolding Base.perform_all Base.perform
join_waits = refl

-- Two objects, of which the first gets the thread of the second.
abbrev jcalls : List Jthread.Call
jcalls =
    Jthread.construct 0 7
    ∷ Jthread.construct 1 8
    ∷ Jthread.ends 7
    ∷ Jthread.join 0
    ∷ Jthread.move_assign 0 1
    ∷ []

abbrev jleft : Jthreads
unfolding Jthread.perform_all
jleft = elim (Jthread.perform_all true jcalls Jthread.initial) [ ok s ↦ s | _ ↦ Jthread.initial ]

jran : Jthread.perform_all true jcalls Jthread.initial ≡ ok jleft
unfolding Jthread.perform_all
jran = refl

-- A move into an object whose thread runs ends the program.
moves_into_running :
    Jthread.perform_all true
      (Jthread.construct 0 7 ∷ Jthread.construct 1 8 ∷ Jthread.move_assign 0 1 ∷ [])
      Jthread.initial
    ≡ terminated
unfolding Jthread.perform_all
moves_into_running = refl

destroy_joins_example :
    ((s' : Jthreads) × (Jthread.perform true (Jthread.destroy 0) jleft ≡ ok s')
      × HasJoined 0 jleft s')
    ⊎ Waits true 0 jleft
unfolding Jthread.perform_all
destroy_joins_example =
    destroy_joins 2 true jcalls jleft (omega arith) jran 0 (omega arith) (omega arith)
      (ground arith) refl

-- Its thread runs, so that the destructor waits, with the stop requested.
a_destructor_waits : Jthread.perform true (Jthread.destroy 0) jleft ≡ waits (Jthread.stop 0 jleft)
unfolding Jthread.perform_all Jthread.perform Base.perform
a_destructor_waits = refl
