-- ===== src/EventManager/Registry.antt =====
-- The registries of a topic agree.
use espp.Prelude.{
  ◌↔◌, ℕ, Bool, true, false, Option, none, some, List, [], ◌∷◌, ◌++◌, ◌≡◌, inl, inr, refl, ap, ◌∙◌,
  Bool-cases,
}
use espp.EventManager.{
  Topic, held, contains, erase, erase_callback, names, add_publisher, remove_publisher, remove_from,
  remove_listed, add_subscriber, publish, remove_callback, remove_subscriber, subscriber_task_fn,
}
use espp.EventManager.Agreement.{
  IsIdle, IsActive, IsConsistent, names-erase_callback, add_subscriber-IsConsistent,
  publish-IsConsistent, task-IsConsistent, task-stops,
}

module _ {C : Type 0} where
  -- A publisher does not concern the subscribers.
  publishers-IsConsistent :
      (publishers : Option (List ℕ)) (t : Topic C)
      → IsConsistent t
      → IsConsistent (record t { publishers = publishers })
  publishers-IsConsistent publishers t (inl v) = inl record {
    no_subscriber = v.no_subscriber;
    no_callback = v.no_callback;
    no_task = v.no_task;
    no_deq = v.no_deq;
  }
  publishers-IsConsistent publishers t (inr v) = inr record {
    one = v.one;
    others = v.others;
    registered = v.registered;
    events = v.events;
    the_subscribers = v.the_subscribers;
    the_callbacks = v.the_callbacks;
    agree = v.agree;
    has_task = v.has_task;
    has_deq = v.has_deq;
  }

  add_publisher-IsConsistent :
      (c : ℕ) (t : Topic C) → IsConsistent t → IsConsistent (add_publisher c t).1
  unfolding add_publisher
  add_publisher-IsConsistent c t v = elim (Bool-cases (contains (held t.publishers) c)) [
    | inl at ↦ rw at (publishers-IsConsistent (some (held t.publishers)) t v)
    | inr at ↦ rw at (publishers-IsConsistent (some (held t.publishers ++ (c ∷ []))) t v)
  ]

  remove_from-IsConsistent :
      (c : ℕ) (p : Option (List ℕ)) (t : Topic C)
      → IsConsistent t
      → IsConsistent (remove_from c p t).1
  unfolding remove_from
  remove_from-IsConsistent c none t v = v
  remove_from-IsConsistent c (some xs) t v = elim (Bool-cases (contains xs c)) [
    | inl at ↦ rw at (publishers-IsConsistent (some (erase xs c)) t v)
    | inr at ↦ rw at v
  ]

  -- The last subscriber's registries are cleared.
  abbrev cleared_topic : Topic C → Topic C
  cleared_topic t = record t { subscribers = some []; callbacks = none; task = false; deq = none }

  cleared : (t : Topic C) → IsIdle (cleared_topic t)
  cleared t = record { no_subscriber = refl; no_callback = refl; no_task = refl; no_deq = refl }

  -- What removing a subscriber gives: no fault, and a consistent topic.
  abbrev pub Removed : Option (Bool × Topic C) → Type 0
  Removed result =
      (removed : Bool) × (t' : Topic C) × (result ≡ some (removed, t')) × IsConsistent t'

  remove_callback-Removed :
      (c : ℕ) (rest : List ℕ) (t : Topic C) (v : IsActive t)
      → erase (v.one ∷ v.others) c ≡ rest
      → Removed (remove_callback c rest t)
  unfolding remove_callback
  remove_callback-Removed c [] t v e = rw v.has_task (true, cleared_topic t, refl, inl (cleared t))
  remove_callback-Removed c (s ∷ ss) t v e = (
    true,
    record t {
      subscribers = some (s ∷ ss);
      callbacks = some (erase_callback (held t.callbacks) c);
    },
    refl,
    inr record {
      one = s;
      others = ss;
      registered = erase_callback (held t.callbacks) c;
      events = v.events;
      the_subscribers = refl;
      the_callbacks = refl;
      agree =
          names-erase_callback (held t.callbacks) c
          ∙ ap (λ found. erase (names (held found)) c) v.the_callbacks
          ∙ ap (λ xs. erase xs c) v.agree
          ∙ e;
      has_task = v.has_task;
      has_deq = v.has_deq;
    },
  )

  remove_listed-active :
      (c : ℕ) (t : Topic C) (v : IsActive t) → Removed (remove_listed c (some (v.one ∷ v.others)) t)
  unfolding remove_listed
  remove_listed-active c t v = elim (Bool-cases (contains (v.one ∷ v.others) c)) [
    | inl at ↦ rw at (remove_callback-Removed c (erase (v.one ∷ v.others) c) t v refl)
    | inr at ↦ rw at (false, t, refl, inr v)
  ]

  remove_listed-idle :
      (c : ℕ) (p : Option (List ℕ)) (t : Topic C)
      → held p ≡ []
      → IsIdle t
      → Removed (remove_listed c p t)
  unfolding remove_listed contains
  remove_listed-idle c none t e v = (false, t, refl, inl v)
  remove_listed-idle c (some []) t e v = (false, t, refl, inl v)
  remove_listed-idle c (some (x ∷ xs)) t e v = absurd (cc e)

  remove_subscriber-Removed :
      (c : ℕ) (t : Topic C) → IsConsistent t → Removed (remove_subscriber c t)
  unfolding remove_subscriber
  remove_subscriber-Removed c t (inl v) = remove_listed-idle c t.subscribers t v.no_subscriber v
  remove_subscriber-Removed c t (inr v) =
      let (b, t', e, v') = remove_listed-active c t v in
      (b, t', ap (λ p. remove_listed c p t) v.the_subscribers ∙ e, v')

  -- On a topic whose registries agree, every operation leaves them in agreement: either nobody
  -- subscribes, and there is no callback, no task and no data, or there is a callback for each
  -- subscriber in their order, a registered task and a deque of data. Removing a subscriber never
  -- meets a topic without its task. A notified run of the task stops it exactly where no event is
  -- waiting.
  pub operations-IsConsistent :
      (c : ℕ) (f : C) (bytes : List ℕ) (t : Topic C)
      → IsConsistent t
      → IsConsistent (add_publisher c t).1
        × IsConsistent (remove_publisher c t).1
        × IsConsistent (add_subscriber c f t).1
        × IsConsistent (publish bytes t).1
        × IsConsistent (subscriber_task_fn t).2
        × (((subscriber_task_fn t).0 ≡ true) ↔ (held t.deq ≡ []))
        × Removed (remove_subscriber c t)
  unfolding remove_publisher
  operations-IsConsistent c f bytes t v = (
    add_publisher-IsConsistent c t v,
    remove_from-IsConsistent c t.publishers t v,
    add_subscriber-IsConsistent c f t v,
    publish-IsConsistent bytes t v,
    task-IsConsistent t v,
    task-stops t v,
    remove_subscriber-Removed c t v,
  )
