-- ===== src/EventManager/Agreement.antt =====
-- What it means that the registries of a topic agree; subscribing, publishing and the task keep it.
use espp.Prelude.{
  ℕ, true, false, Option, none, some, List, [], ◌∷◌, ◌++◌, ◌≡◌, ◌↔◌, ◌⊎◌, inl, inr, refl, ap, ◌∙◌,
  ◌==◌, Bool-cases,
}
use espp.EventManager.{
  Topic, held, contains, erase, erase_callback, names, start_task, add_callback, add_subscriber,
  publish, drain, subscriber_task_fn, calls,
}

module _ {C : Type 0} where
  -- Nobody subscribes: no callback, no task, no data.
  pub record IsIdle (t : Topic C) : Type 0 where
    pub no_subscriber : held t.subscribers ≡ []
    pub no_callback : t.callbacks ≡ none
    pub no_task : t.task ≡ false
    pub no_deq : t.deq ≡ none

  -- Somebody subscribes: a callback for each subscriber in their order, a task, which may have
  -- stopped, and data.
  pub record IsActive (t : Topic C) : Type 0 where
    pub one : ℕ
    pub others : List ℕ
    pub registered : List (ℕ × C)
    pub events : List (List ℕ)
    pub the_subscribers : t.subscribers ≡ some (one ∷ others)
    pub the_callbacks : t.callbacks ≡ some registered
    pub agree : names registered ≡ one ∷ others
    pub has_task : t.task ≡ true
    pub has_deq : t.deq ≡ some events

  abbrev pub IsConsistent : Topic C → Type 0
  IsConsistent t = IsIdle t ⊎ IsActive t

  names-append :
      (xs : List (ℕ × C)) (c : ℕ) (f : C) → names (xs ++ ((c, f) ∷ [])) ≡ names xs ++ (c ∷ [])
  names-append [] c f = refl
  names-append ((x, g) ∷ xs) c f = ap (◌∷◌ x) (names-append xs c f)

  pub names-erase_callback :
      (xs : List (ℕ × C)) (c : ℕ) → names (erase_callback xs c) ≡ erase (names xs) c
  unfolding erase_callback erase
  names-erase_callback [] c = refl
  names-erase_callback ((x, g) ∷ xs) c = elim (Bool-cases (x == c)) [
    | inl at ↦ rw at refl
    | inr at ↦ rw at (ap (◌∷◌ x) (names-erase_callback xs c))
  ]

  -- The same with the list of subscribers spelt out.
  active :
      (t : Topic C) (v : IsActive t) → IsActive (record t { subscribers = some (v.one ∷ v.others) })
  active t v = record {
    one = v.one;
    others = v.others;
    registered = v.registered;
    events = v.events;
    the_subscribers = refl;
    the_callbacks = v.the_callbacks;
    agree = v.agree;
    has_task = v.has_task;
    has_deq = v.has_deq;
  }

  with_events :
      (t : Topic C) (v : IsActive t) (events : List (List ℕ))
      → IsActive (record t { deq = some events })
  with_events t v events = record {
    one = v.one;
    others = v.others;
    registered = v.registered;
    events = events;
    the_subscribers = v.the_subscribers;
    the_callbacks = v.the_callbacks;
    agree = v.agree;
    has_task = v.has_task;
    has_deq = refl;
  }

  pub add_subscriber-IsConsistent :
      (c : ℕ) (f : C) (t : Topic C) → IsConsistent t → IsConsistent (add_subscriber c f t).1
  unfolding add_subscriber add_callback start_task contains
  add_subscriber-IsConsistent c f t (inl v) =
      rw (v.no_subscriber, v.no_callback, v.no_task, v.no_deq)
        (inr record {
          one = c;
          others = [];
          registered = (c, f) ∷ [];
          events = [];
          the_subscribers = refl;
          the_callbacks = refl;
          agree = refl;
          has_task = refl;
          has_deq = refl;
        })
  add_subscriber-IsConsistent c f t (inr v) = elim (Bool-cases (contains (v.one ∷ v.others) c)) [
    | inl at ↦ rw (v.the_subscribers, at) (inr (active t v))
    | inr at ↦
        rw (v.the_subscribers, v.the_callbacks, v.agree, at, v.has_task)
          (inr record {
            one = v.one;
            others = v.others ++ (c ∷ []);
            registered = v.registered ++ ((c, f) ∷ []);
            events = v.events;
            the_subscribers = refl;
            the_callbacks = refl;
            agree = names-append v.registered c f ∙ ap (λ xs. xs ++ (c ∷ [])) v.agree;
            has_task = refl;
            has_deq = v.has_deq;
          })
  ]

  pub publish-IsConsistent :
      (bytes : List ℕ) (t : Topic C) → IsConsistent t → IsConsistent (publish bytes t).1
  unfolding publish
  publish-IsConsistent bytes t (inl v) = rw v.no_deq (
      inl record {
        no_subscriber = v.no_subscriber;
        no_callback = v.no_callback;
        no_task = v.no_task;
        no_deq = refl;
      })
  publish-IsConsistent bytes t (inr v) =
      rw v.has_deq (inr (with_events t v (v.events ++ (bytes ∷ []))))

  -- The calls for events in their order, each one's in the order of the callbacks.
  abbrev pub deliveries : List (ℕ × C) → List (List ℕ) → List (C × List ℕ)
  deliveries callbacks [] = []
  deliveries callbacks (bytes ∷ events) = calls callbacks bytes ++ deliveries callbacks events

  pub drain-deliveries :
      (t : Topic C) (callbacks : List (ℕ × C)) (events : List (List ℕ))
      → t.callbacks ≡ some callbacks
      → drain t events ≡ (false, deliveries callbacks events, record t { deq = some [] })
  unfolding drain
  drain-deliveries t callbacks [] h = refl
  drain-deliveries t callbacks (e ∷ es) h =
      let rest = drain t es in
      let found : drain t (e ∷ es) ≡ (rest.0, calls callbacks e ++ rest.1, rest.2) =
        ap
          (λ held_callbacks. elim held_callbacks [
            | none ↦ (true, [], record t { deq = some es })
            | some fs ↦ (rest.0, calls fs e ++ rest.1, rest.2)
          ])
          h in
      found ∙ ap (λ r. (r.0, calls callbacks e ++ r.1, r.2)) (drain-deliveries t callbacks es h)

  task-found :
      (t : Topic C) (deq : Option (List (List ℕ)))
      → t.deq ≡ deq
      → subscriber_task_fn t ≡ elim deq [
        | none ↦ (true, [], t)
        | some [] ↦ (true, [], t)
        | some (bytes ∷ events) ↦ drain t (bytes ∷ events)
      ]
  unfolding subscriber_task_fn
  task-found t deq d =
      ap
        (λ deq. elim deq [
          | none ↦ (true, [], t)
          | some [] ↦ (true, [], t)
          | some (bytes ∷ events) ↦ drain t (bytes ∷ events)
        ])
        d

  -- What the task does with a topic that holds events.
  pub task-deliveries :
      (t : Topic C) (callbacks : List (ℕ × C)) (e : List ℕ) (es : List (List ℕ))
      → t.callbacks ≡ some callbacks
      → t.deq ≡ some (e ∷ es)
      → subscriber_task_fn t ≡ (false, deliveries callbacks (e ∷ es), record t { deq = some [] })
  task-deliveries t callbacks e es h d =
      task-found t (some (e ∷ es)) d ∙ drain-deliveries t callbacks (e ∷ es) h

  task-nothing :
      (t : Topic C) → (t.deq ≡ none) ⊎ (t.deq ≡ some []) → subscriber_task_fn t ≡ (true, [], t)
  task-nothing t (inl d) = task-found t none d
  task-nothing t (inr d) = task-found t (some []) d

  pub task-IsConsistent : (t : Topic C) → IsConsistent t → IsConsistent (subscriber_task_fn t).2
  task-IsConsistent t (inl v) = rw (task-nothing t (inl v.no_deq)) (inl v)
  task-IsConsistent t (inr v) = go v.events v.has_deq
    where
      go : (events : List (List ℕ)) → t.deq ≡ some events → IsConsistent (subscriber_task_fn t).2
      go [] d = rw (task-nothing t (inr d)) (inr v)
      go (e ∷ es) d =
          rw (task-deliveries t v.registered e es v.the_callbacks d) (inr (with_events t v []))

  -- A notified run stops the task where no event is waiting, and only there.
  pub task-stops :
      (t : Topic C) → IsConsistent t → ((subscriber_task_fn t).0 ≡ true) ↔ (held t.deq ≡ [])
  task-stops t (inl v) = rw (task-nothing t (inl v.no_deq), v.no_deq) (λ h. refl, λ h. refl)
  task-stops t (inr v) = go v.events v.has_deq
    where
      go :
          (events : List (List ℕ))
          → t.deq ≡ some events
          → ((subscriber_task_fn t).0 ≡ true) ↔ (held t.deq ≡ [])
      go [] d = rw (task-nothing t (inr d), d) (λ h. refl, λ h. refl)
      go (e ∷ es) d =
          rw (task-deliveries t v.registered e es v.the_callbacks d, d)
            (λ h. absurd (cc h), λ h. absurd (cc h))
