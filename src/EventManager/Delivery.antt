-- ===== src/EventManager/Delivery.antt =====
-- From publishing to the callbacks.
use espp.Prelude.{
  ℕ, true, false, none, some, List, [], ◌∷◌, ◌++◌, ◌≡◌, ◌≢◌, ◌↔◌, refl, ap, sym, ◌∙◌, inl, inr,
}
use mathlib.Core.List.{append_assoc, append-nil}
use espp.EventManager.{Topic, held, publish, subscriber_task_fn}
use espp.EventManager.Agreement.{IsActive, IsConsistent, deliveries, task-deliveries}

some_first :
    (ds : List (List ℕ)) (e : List ℕ) (es : List (List ℕ))
    → (first : List ℕ) × (rest : List (List ℕ)) × (ds ++ (e ∷ es) ≡ first ∷ rest)
some_first [] e es = (e, es, refl)
some_first (d ∷ ds) e es = (d, ds ++ (e ∷ es), refl)

module _ {C : Type 0} where
  -- Events published one after another.
  abbrev pub publish_all : List (List ℕ) → Topic C → Topic C
  publish_all [] t = t
  publish_all (e ∷ es) t = publish_all es (publish e t).1

  publish-held :
      (e : List ℕ) (t : Topic C) (held_events : List (List ℕ))
      → t.deq ≡ some held_events
      → publish e t ≡ (true, record t { deq = some (held_events ++ (e ∷ [])) })
  unfolding publish
  publish-held e t es h =
      ap
        (λ deq. elim deq [
          | none ↦ (false, t)
          | some d ↦ (true, record t { deq = some (d ++ (e ∷ [])) })
        ])
        h

  publish_all-held :
      (es : List (List ℕ)) (t : Topic C) (held_events : List (List ℕ))
      → t.deq ≡ some held_events
      → publish_all es t ≡ record t { deq = some (held_events ++ es) }
  publish_all-held [] t ds h =
      ap (λ deq. record t { deq = deq }) (h ∙ ap some (sym (append-nil ds)))
  publish_all-held (e ∷ es) t ds h =
      ap (λ r. publish_all es r.1) (publish-held e t ds h)
      ∙ publish_all-held es (record t { deq = some (ds ++ (e ∷ [])) }) (ds ++ (e ∷ [])) refl
      ∙ ap (λ all. record t { deq = some all }) (append_assoc ds (e ∷ []) es)

  -- On a topic with subscribers, one notified run of the task after one or more events were
  -- published calls every subscriber's callback with every event that was waiting and with every
  -- new one, the events in the order they were published and for each event the callbacks in the
  -- order they were added; the deque is then empty and the task goes on.
  pub task-publish_all :
      (t : Topic C) (v : IsActive t) (e : List ℕ) (es : List (List ℕ))
      → subscriber_task_fn (publish_all (e ∷ es) t)
        ≡ (false, deliveries v.registered (v.events ++ (e ∷ es)), record t { deq = some [] })
  task-publish_all t v e es =
      let (d, ds, split) = some_first v.events e es in
      let waiting : Topic C = record t { deq = some (v.events ++ (e ∷ es)) } in
      ap subscriber_task_fn (publish_all-held (e ∷ es) t v.events v.has_deq)
      ∙ task-deliveries waiting v.registered d ds v.the_callbacks (ap some split)
      ∙ ap (λ all. (false, deliveries v.registered all, record t { deq = some [] })) (sym split)

  -- On a topic whose registries agree, `publish` returns true exactly where somebody subscribes.
  pub publish_iff :
      (e : List ℕ) (t : Topic C)
      → IsConsistent t
      → ((publish e t).0 ≡ true) ↔ (held t.subscribers ≢ [])
  unfolding publish
  publish_iff e t (inl v) =
      rw (v.no_deq, v.no_subscriber) (λ h. absurd (cc h), λ h. absurd (h refl))
  publish_iff e t (inr v) = rw (v.has_deq, v.the_subscribers) (λ h. λ n. absurd (cc n), λ h. refl)
