-- ===== src/EventManager/Tests.antt =====
-- A topic with two subscribers, whose callbacks are numbers.
use espp.Prelude.{◌↔◌, ℕ, true, false, some, none, [], ◌∷◌, ◌≡◌, inr, refl}
use espp.EventManager.{
  held, Topic, add_publisher, remove_publisher, add_subscriber, publish, subscriber_task_fn,
  remove_subscriber, calls,
}
use espp.EventManager.Registry.{Removed, operations-IsConsistent}
use espp.EventManager.Agreement.{IsActive, IsConsistent}
use espp.EventManager.Delivery.{publish_all, task-publish_all}

-- One event is waiting.
abbrev topic : Topic ℕ
topic = record {
  publishers = none;
  subscribers = some (4 ∷ 7 ∷ []);
  callbacks = some ((4, 40) ∷ (7, 70) ∷ []);
  task = true;
  deq = some ((1 ∷ []) ∷ []);
}

abbrev topic-IsActive : IsActive topic
topic-IsActive = record {
  one = 4;
  others = 7 ∷ [];
  registered = (4, 40) ∷ (7, 70) ∷ [];
  events = (1 ∷ []) ∷ [];
  the_subscribers = refl;
  the_callbacks = refl;
  agree = refl;
  has_task = refl;
  has_deq = refl;
}

operations-IsConsistent_example :
    IsConsistent (add_publisher 7 topic).1
    × IsConsistent (remove_publisher 7 topic).1
    × IsConsistent (add_subscriber 7 71 topic).1
    × IsConsistent (publish (2 ∷ []) topic).1
    × IsConsistent (subscriber_task_fn topic).2
    × (((subscriber_task_fn topic).0 ≡ true) ↔ (held topic.deq ≡ []))
    × Removed (remove_subscriber 7 topic)
operations-IsConsistent_example = operations-IsConsistent 7 71 (2 ∷ []) topic (inr topic-IsActive)

task-publish_all_example : subscriber_task_fn (publish_all ((2 ∷ []) ∷ []) topic) ≡ (
  false,
  (40, (1 ∷ [])) ∷ (70, (1 ∷ [])) ∷ (40, (2 ∷ [])) ∷ (70, (2 ∷ [])) ∷ [],
  record topic { deq = some [] },
)
unfolding calls
task-publish_all_example = task-publish_all topic topic-IsActive (2 ∷ []) []
