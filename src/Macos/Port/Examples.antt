-- ===== src/Macos/Port/Examples.antt =====
-- A process that makes a port, copies it, and drops both values; a port that came in a message stays.
use ipmb.Prelude.{true, false, none, some, List, [], ◌∷◌, ◌≡◌, refl}
use ipmb.Macos.Port.{
  allocated, inserted, added, receive_released, deallocated, Task, Action, create, adopt, copy,
  discard, act, acts, fresh,
}
use ipmb.Macos.Port.Laws.{IsBalanced, ports-IsBalanced}

abbrev history : List Action
history =
    create (some 515) true true
    ∷ copy 0 true
    ∷ adopt 771
    ∷ copy 0 false
    ∷ discard 2 true true
    ∷ discard 1 true true
    ∷ []

abbrev ended : Task
ended = record {
  live = record { port = 771; receive_right = false } ∷ [];
  forgotten = [];
  adopted = 771 ∷ [];
  calls =
      deallocated 515
      ∷ deallocated 515
      ∷ receive_released 515
      ∷ added 515
      ∷ inserted 515
      ∷ allocated 515
      ∷ [];
}

history_run : acts true history fresh ≡ some ended
unfolding acts act
history_run = refl

-- The kernel refuses to release a right: a debug build panics.
refused : acts true (create (some 515) true true ∷ discard 0 true false ∷ []) fresh ≡ none
unfolding acts act
refused = refl

ports-IsBalanced_example : IsBalanced 515 ended
ports-IsBalanced_example = ports-IsBalanced 515 true history ended history_run
