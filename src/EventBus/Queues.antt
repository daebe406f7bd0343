-- ===== src/EventBus/Queues.antt =====
-- One queue of app/event_bus.py: what an operation on the bus does to the queue of one client.
use ai_routing.Prelude.{
  ℕ, ◌-◌, ◌≤◌, ◌≡◌, ◌≢◌, ap, false, none, some, [], ◌∷◌, ◌++◌, arith, length, last, length-drop,
  length-append, drop-append, sym, Bool-cases, inl, inr, last-all,
}
use ai_routing.EventBus.{
  Queue, Subscribers, subscribe, unsubscribe, full, drop_oldest, offer, publish, find_queue, taken,
  get, max_queue_size,
}

module _ {P : Type 0} where
  -- A queue that is no longer than its bound takes a payload in, and keeps the last ones.
  pub offer-last :
      (p : P) (q : Queue P)
      → length q.items ≤ max_queue_size
      → offer p q ≡ record q { items = last max_queue_size (q.items ++ (p ∷ [])) }
  unfolding offer
  offer-last p q h = elim (Bool-cases (full q)) [
    | inl is_full ↦
        let shorter : full (drop_oldest q) ≡ false = ground (arith, length-drop 1 q.items) in
        let one : length (q.items ++ (p ∷ [])) - max_queue_size ≡ 1 =
          ground (arith, length-append q.items (p ∷ [])) in
        rw (is_full, shorter, one)
          (ap (λ items. record { id = q.id; items = items })
            (sym (drop-append 1 q.items (p ∷ []) (ground arith))))
    | inr has_room ↦
        let fits : length (q.items ++ (p ∷ [])) ≤ max_queue_size =
          ground (arith, length-append q.items (p ∷ [])) in
        rw (has_room, has_room)
          (ap (λ items. record { id = q.id; items = items })
            (sym (last-all max_queue_size (q.items ++ (p ∷ [])) fits)))
  ]

  pub find_queue-publish :
      (id : ℕ) (p : P) (q : Queue P) (qs : Subscribers P)
      → find_queue id qs ≡ some q
      → find_queue id (publish p qs) ≡ some (offer p q)
  unfolding publish offer
  find_queue-publish id p q [] h = absurd (cc)
  find_queue-publish id p q (x ∷ qs) h = ground (arith, find_queue-publish id p q qs)

  pub find_queue-subscribe_new :
      (id : ℕ) (qs : Subscribers P)
      → find_queue id qs ≡ none
      → find_queue id (subscribe id qs) ≡ some (record { id = id; items = [] })
  unfolding subscribe
  find_queue-subscribe_new id [] h = ground arith
  find_queue-subscribe_new id (x ∷ qs) h = ground (arith, find_queue-subscribe_new id qs)

  pub find_queue-subscribe_other :
      (id j : ℕ) (q : Queue P) (qs : Subscribers P)
      → find_queue id qs ≡ some q
      → find_queue id (subscribe j qs) ≡ some q
  unfolding subscribe
  find_queue-subscribe_other id j q [] h = absurd (cc)
  find_queue-subscribe_other id j q (x ∷ qs) h =
      ground (arith, find_queue-subscribe_other id j q qs)

  pub find_queue-unsubscribe_other :
      (id j : ℕ) (q : Queue P) (qs : Subscribers P)
      → id ≢ j
      → find_queue id qs ≡ some q
      → find_queue id (unsubscribe j qs) ≡ some q
  unfolding unsubscribe
  find_queue-unsubscribe_other id j q [] ne h = absurd (cc)
  find_queue-unsubscribe_other id j q (x ∷ qs) ne h =
      ground (arith, find_queue-unsubscribe_other id j q qs)

  pub find_queue-get_other :
      (id j : ℕ) (q : Queue P) (qs : Subscribers P)
      → id ≢ j
      → find_queue id qs ≡ some q
      → find_queue id (get j qs).1 ≡ some q
  unfolding get
  find_queue-get_other id j q [] ne h = absurd (cc)
  find_queue-get_other id j q (x ∷ qs) ne h = ground (arith, find_queue-get_other id j q qs)

  pub get_own :
      (id : ℕ) (q : Queue P) (qs : Subscribers P)
      → find_queue id qs ≡ some q
      → ((get id qs).0 ≡ (taken q).0) × (find_queue id (get id qs).1 ≡ some ((taken q).1))
  unfolding get
  get_own id q [] h = absurd (cc)
  get_own id q (x ∷ qs) h = ground (arith, get_own id q qs)
