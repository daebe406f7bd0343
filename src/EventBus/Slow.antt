-- ===== src/EventBus/Slow.antt =====
-- A client of app/event_bus.py that does not read: its queue is a ring buffer.
use ai_routing.Prelude.{
  ℕ, ◌≤◌, ◌≡◌, ◌≢◌, refl, sym, ap, subst, ◌∙◌, none, some, List, [], ◌∷◌, ◌++◌, last, length,
  length-last-le, last-append-last,
}
use mathlib.Core.List.{append_assoc, append-nil}
use ai_routing.EventBus.{Queue, Subscribers, subscribe, find_queue, max_queue_size}
use ai_routing.EventBus.Queues.{
  offer-last, find_queue-publish, find_queue-subscribe_new, find_queue-subscribe_other,
  find_queue-unsubscribe_other, find_queue-get_other,
}
use ai_routing.EventBus.Events.{
  Event, subscribes, unsubscribes, gets, publishes, World, step, run, published, published_by,
}

module _ {P : Type 0} where
  -- Nothing but `publish` touches queue `me`.
  abbrev Ignores : ℕ → Event P → Type 0
  Ignores me (publishes p) = Unit
  Ignores me (subscribes id) = me ≢ id
  Ignores me (unsubscribes id) = me ≢ id
  Ignores me (gets id) = me ≢ id

  abbrev pub AllIgnore : ℕ → List (Event P) → Type 0
  AllIgnore me [] = Unit
  AllIgnore me (e ∷ es) = Ignores me e × AllIgnore me es

  -- Queue `me` holds the last of the payloads `ps`.
  abbrev pub HoldsLast : ℕ → Subscribers P → List P → Type 0
  HoldsLast me qs ps =
      (q : Queue P) × (find_queue me qs ≡ some q) × (q.items ≡ last max_queue_size ps)

  step-HoldsLast :
      (me : ℕ) (e : Event P) (w : World P) (ps : List P)
      → Ignores me e
      → HoldsLast me w.bus ps
      → HoldsLast me (step me e w).bus (ps ++ published_by e)
  unfolding step
  step-HoldsLast me (subscribes id) w ps other (q, there, items) = (
    q,
    find_queue-subscribe_other me id q w.bus there,
    items ∙ ap (last max_queue_size) (sym (append-nil ps)),
  )
  step-HoldsLast me (unsubscribes id) w ps other (q, there, items) = (
    q,
    find_queue-unsubscribe_other me id q w.bus other there,
    items ∙ ap (last max_queue_size) (sym (append-nil ps)),
  )
  step-HoldsLast me (gets id) w ps other (q, there, items) = (
    q,
    find_queue-get_other me id q w.bus other there,
    items ∙ ap (last max_queue_size) (sym (append-nil ps)),
  )
  step-HoldsLast me (publishes p) w ps other (q, there, items) =
      let bounded : length q.items ≤ max_queue_size =
        subst (λ xs. length xs ≤ max_queue_size) (sym items) (length-last-le max_queue_size ps) in
      (
        record q { items = last max_queue_size (q.items ++ (p ∷ [])) },
        find_queue-publish me p q w.bus there ∙ ap some (offer-last p q bounded),
        ap (λ xs. last max_queue_size (xs ++ (p ∷ []))) items
            ∙ last-append-last max_queue_size ps (p ∷ []),
      )

  run-HoldsLast :
      (me : ℕ) (es : List (Event P)) (w : World P) (ps : List P)
      → AllIgnore me es
      → HoldsLast me w.bus ps
      → HoldsLast me (run me es w).bus (ps ++ published es)
  unfolding run
  run-HoldsLast me [] w ps ignore held = subst (HoldsLast me w.bus) (sym (append-nil ps)) held
  run-HoldsLast me (e ∷ es) w ps ignore held =
      subst (HoldsLast me (run me es (step me e w)).bus)
        (append_assoc ps (published_by e) (published es))
        (run-HoldsLast me es (step me e w) (ps ++ published_by e) ignore.1
          (step-HoldsLast me e w ps ignore.0 held))

  -- After any history in which its client does not read, a queue holds exactly the last 64 payloads
  -- published since it was made: a slow client loses the oldest ones, and nobody waits for it.
  pub subscribe-HoldsLast :
      (me : ℕ) (es : List (Event P)) (qs : Subscribers P)
      → find_queue me qs ≡ none
      → AllIgnore me es
      → HoldsLast me
          (run me es (record { bus = subscribe me qs; received = [] })).bus
          (published es)
  subscribe-HoldsLast me es qs fresh ignore =
      run-HoldsLast me es (record { bus = subscribe me qs; received = [] }) [] ignore
        (record { id = me; items = [] }, find_queue-subscribe_new me qs fresh, refl)
