-- ===== src/Examples/Pooled.antt =====
-- A started node beside a pool with one worker.
use schedule.Base.{
  ◌<◌, refl, true, false, [], ◌∷◌, List, some, some-injective, subst, length, arith, ◌≡◌,
}
use schedule.Types.{JobOccurrence}
use schedule.Job.{Job}
use schedule.Dispatch.{Node, submit, work}
use schedule.Dispatch.Pooled.{
  Handed, hand, take, hand_one, hand_all, HasRoomFor, Matches, IsPooled, node_refines,
}
use schedule.Pool.{WorkerPool}
use schedule.Examples.Jobs.{plain, in_steps, world_outside, store, before, due}

abbrev waits : Node store
waits = record { world = before; pool_started = true; task_queue = []; submitted = [] }

abbrev works : WorkerPool (Job × JobOccurrence)
works = record {
  max_workers = 1;
  started = true;
  stopping = false;
  closed = false;
  task_queue = [];
  senders = [];
  inline = [];
  waiting = 1;
  busy = [];
  ended = [];
  given_up = [];
}

abbrev one_handed : List Handed
one_handed = take ∷ hand in_steps due ∷ []

abbrev has_one : Node store
has_one = record waits { task_queue = (in_steps, due) ∷ []; submitted = due ∷ [] }

handed : hand_all store world_outside plain one_handed waits ≡ some has_one
unfolding hand_all hand_one work submit
handed = refl

waits-Matches : Matches store world_outside plain 2 waits works
waits-Matches = record {
  node_started = refl;
  started = refl;
  queue = refl;
  still = refl;
  is_open = refl;
  nobody = refl;
  idle = refl;
  others = 0;
  a_worker = refl;
  size = refl;
}

room : HasRoomFor store world_outside plain 2 one_handed waits
unfolding hand_one work
room = (
  tt,
  λ m h. (
    subst (λ (m : Node store). length m.task_queue < 2) (some-injective _ _ h) (omega arith),
    λ k g. tt,
  ),
)

node_refines_example : IsPooled store world_outside plain 2 works has_one
node_refines_example =
    node_refines store world_outside plain 2 one_handed waits has_one works waits-Matches room
      handed
