-- ===== src/EventManager.antt =====
-- Publishing and subscribing: EventManager (components/event_manager/src/event_manager.cpp).
-- Names of topics and components are only compared, so they stand as numbers. Each of the five
-- maps of the source has the topic as its key, and an operation touches the entries of one topic
-- only: what the maps hold of it is a `Topic`. A callback
-- is a value of the type `C`; what it does is not modelled, the calls are recorded in their order.
-- The mutexes make each operation one step, and the steps are sequences here.
mod Agreement
mod Registry
mod Delivery
mod Tests
use espp.Prelude.{
  ℕ, Bool, true, false, Option, none, some, List, [], ◌∷◌, ◌++◌, map, ◌==◌, if◌then◌else◌,
}

-- `task`: whether `subscriber_tasks_` holds a task, which is there also after a run of it that said
-- to stop. `subscriber_data_` holds a deque or nothing.
pub record Topic (C : Type 0) : Type 0 where
  pub publishers : Option (List ℕ)
  pub subscribers : Option (List ℕ)
  pub callbacks : Option (List (ℕ × C))
  pub task : Bool
  pub deq : Option (List (List ℕ))

-- `operator[]`, which makes an empty value where there is none.
abbrev pub held : {A : Type 0} → Option (List A) → List A
held none = []
held (some xs) = xs

pub contains : List ℕ → ℕ → Bool
contains [] c = false
contains (x ∷ xs) c = let rest = contains xs c in if x == c then true else rest

-- `erase` of what `std::find` finds.
pub erase : List ℕ → ℕ → List ℕ
erase [] c = []
erase (x ∷ xs) c = let rest = x ∷ erase xs c in if x == c then xs else rest

module _ {C : Type 0} where
  pub erase_callback : List (ℕ × C) → ℕ → List (ℕ × C)
  erase_callback [] c = []
  erase_callback ((x, f) ∷ xs) c =
      let rest = (x, f) ∷ erase_callback xs c in if x == c then xs else rest

  abbrev pub names : List (ℕ × C) → List ℕ
  names [] = []
  names ((x, f) ∷ xs) = x ∷ names xs

  unfoldable pub add_publisher : ℕ → Topic C → Bool × Topic C
  add_publisher component t =
      let publishers = held t.publishers in
      if contains publishers component
      then (false, record t { publishers = some publishers })
      else (true, record t { publishers = some (publishers ++ (component ∷ [])) })

  -- With what `contains` and `operator[]` find of the topic's publishers.
  unfoldable pub remove_from : ℕ → Option (List ℕ) → Topic C → Bool × Topic C
  remove_from component none t = (false, t)
  remove_from component (some publishers) t =
      if contains publishers component
      then (true, record t { publishers = some (erase publishers component) })
      else (false, t)

  unfoldable pub remove_publisher : ℕ → Topic C → Bool × Topic C
  remove_publisher component t = remove_from component t.publishers t

  -- The last part of `add_subscriber`: data and a task, if the topic has no task.
  unfoldable pub start_task : Topic C → Topic C
  start_task t = if t.task then t else record t { task = true; deq = some (held t.deq) }

  unfoldable pub add_callback : ℕ → C → Topic C → Bool × Topic C
  unfolding start_task
  add_callback component callback t =
      let callbacks = held t.callbacks in
      if contains (names callbacks) component
      then (false, record t { callbacks = some callbacks })
      else (
        true,
        start_task (record t { callbacks = some (callbacks ++ ((component, callback) ∷ [])) }),
      )

  unfoldable pub add_subscriber : ℕ → C → Topic C → Bool × Topic C
  unfolding add_callback
  add_subscriber component callback t =
      let subscribers = held t.subscribers in
      if contains subscribers component
      then (false, record t { subscribers = some subscribers })
      else add_callback component callback
          (record t { subscribers = some (subscribers ++ (component ∷ [])) })

  unfoldable pub publish : List ℕ → Topic C → Bool × Topic C
  publish bytes t = elim t.deq [
    | none ↦ (false, t)
    | some deq ↦ (true, record t { deq = some (deq ++ (bytes ∷ [])) })
  ]

  -- After the subscriber is gone from the list of names. `none` where the last subscriber goes and
  -- there is no task, whose null pointer the source would follow.
  unfoldable pub remove_callback : ℕ → List ℕ → Topic C → Option (Bool × Topic C)
  remove_callback component [] t =
      if t.task
      then some
          (true, record t { subscribers = some []; callbacks = none; task = false; deq = none })
      else none
  remove_callback component (s ∷ subscribers) t = some (
    true,
    record t {
      subscribers = some (s ∷ subscribers);
      callbacks = some (erase_callback (held t.callbacks) component);
    },
  )

  unfoldable pub remove_listed : ℕ → Option (List ℕ) → Topic C → Option (Bool × Topic C)
  remove_listed component none t = some (false, t)
  remove_listed component (some subscribers) t =
      if contains subscribers component
      then remove_callback component (erase subscribers component) t
      else some (false, t)

  unfoldable pub remove_subscriber : ℕ → Topic C → Option (Bool × Topic C)
  remove_subscriber component t = remove_listed component t.subscribers t

  -- The calls for one event.
  pub calls : List (ℕ × C) → List ℕ → List (C × List ℕ)
  calls [] bytes = []
  calls ((x, f) ∷ callbacks) bytes = (f, bytes) ∷ calls callbacks bytes

  -- The loop that empties the deque. Without callbacks the task stops, and the event that was
  -- taken is lost. The result: whether the task stops, the calls, and the topic.
  unfoldable pub drain : Topic C → List (List ℕ) → Bool × List (C × List ℕ) × Topic C
  unfolding calls
  drain t [] = (false, [], record t { deq = some [] })
  drain t (bytes ∷ deq) =
      let rest = drain t deq in
      elim t.callbacks [
        | none ↦ (true, [], record t { deq = some deq })
        | some callbacks ↦ (rest.0, calls callbacks bytes ++ rest.1, rest.2)
      ]

  -- One run of `subscriber_task_fn` that was notified.
  unfoldable pub subscriber_task_fn : Topic C → Bool × List (C × List ℕ) × Topic C
  unfolding drain
  subscriber_task_fn t = elim t.deq [
    | none ↦ (true, [], t)
    | some [] ↦ (true, [], t)
    | some (bytes ∷ deq) ↦ drain t (bytes ∷ deq)
  ]
