-- ===== src/Examples/Program.antt =====
-- The theorems of the program's life at two of its courses.
use alertsnitch.Base.{◌≢◌, refl, inr, true, false}
use alertsnitch.Program.{
  shut, finished, Life, assigns, listens, returns, finishes, accepts, answers, signals, shuts,
  drains, closes, begun, Reach, here, next, serving, done, listening,
}
use alertsnitch.Program.Orderly.{ShutsInOrder, Reach-ShutsInOrder}
use alertsnitch.Program.Missed.{missed-unfinished}

-- A request is answered while the program shuts down.
abbrev ended : Life
ended = record {
  main = finished;
  watch = done;
  http = shut;
  requests = 0;
  backend_open = false;
  missed = false;
  late = false;
}

orderly : Reach begun ended
orderly =
    next
      (next
        (next
          (next
            (next
              (next
                (next (next (next (next here (assigns refl)) (listens refl refl)) (accepts _ refl))
                  (signals _ refl))
                (shuts _ refl))
              (returns (inr refl) refl))
            (answers {n = 0} _ refl))
          (drains _ refl refl))
        (closes _ refl))
      (finishes refl refl)

Reach-ShutsInOrder_example : ShutsInOrder ended
Reach-ShutsInOrder_example = Reach-ShutsInOrder orderly

-- The signal comes first: the server listens with its backend closed.
abbrev orphaned : Life
orphaned = record {
  main = serving;
  watch = done;
  http = listening;
  requests = 0;
  backend_open = false;
  missed = true;
  late = false;
}

missed-unfinished_example : (orphaned.http ≢ shut) × (orphaned.main ≢ finished)
missed-unfinished_example =
    missed-unfinished (next here (signals _ refl)) refl
      (next (next (next here (closes _ refl)) (assigns refl)) (listens refl refl))
