-- ===== src/EventBus/Delivery.antt =====
-- What a client of the event stream gets from app/event_bus.py, over whole histories.
use ai_routing.Prelude.{
  ℕ, ◌-◌, ◌≡◌, ◌≢◌, refl, sym, subst, none, List, [], ◌∷◌, ◌++◌, arith, ◌==◌, if◌then◌else◌,
  Bool-cases, ==_iff, inl, inr,
}
use mathlib.Core.List.{append_assoc, append-nil}
use mathlib.Core.List.Sublist.{refl as Sublist_refl}
use ai_routing.EventBus.{Subscribers, subscribe, unsubscribe, find_queue, get}
use ai_routing.EventBus.Queues.{
  find_queue-subscribe_new, find_queue-subscribe_other, find_queue-unsubscribe_other,
  find_queue-get_other, get_own,
}
use ai_routing.EventBus.Events.{
  Event, subscribes, unsubscribes, gets, publishes, World, delivered, step, run, published_by,
  published, Stays, AllStay,
}
use ai_routing.EventBus.Missed.{
  tally_one, tally, Delivered, unmoved, publish-Delivered, take-Delivered,
}

module _ {P : Type 0} where
  step-Delivered :
      (me : ℕ) (e : Event P) (w : World P) (ps : List P) (waiting missed : ℕ)
      → Stays me e
      → Delivered me w ps (waiting, missed)
      → Delivered me (step me e w) (ps ++ published_by e) (tally_one me e (waiting, missed))
  unfolding step
  step-Delivered me (subscribes id) w ps waiting missed stays d =
      unmoved me w (subscribe id w.bus) ps _ d w.received refl
        (find_queue-subscribe_other me id d.queue w.bus d.subscribed)
  step-Delivered me (unsubscribes id) w ps waiting missed stays d =
      unmoved me w (unsubscribe id w.bus) ps _ d w.received refl
        (find_queue-unsubscribe_other me id d.queue w.bus stays d.subscribed)
  step-Delivered me (publishes p) w ps waiting missed stays d =
      publish-Delivered me p w ps waiting missed d
  step-Delivered me (gets id) w ps waiting missed stays d = elim (Bool-cases (me == id)) [
    | inl mine ↦
        let (got, there) = get_own me d.queue w.bus d.subscribed in
        let same : me ≡ id = (==_iff me id).0 mine in
        subst
          (λ j.
            Delivered me
              (record {
                bus = (get j w.bus).1;
                received = w.received ++ (if me == id then delivered (get j w.bus).0 else []);
              })
              (ps ++ []) (if me == id then waiting - 1 else waiting, missed))
          same (rw (mine, got) (take-Delivered me w (get me w.bus).1 ps waiting missed d there))
    | inr other ↦
        let differ : me ≢ id = λ same. ground (arith, same, other) in
        rw other (
          unmoved me w (get id w.bus).1 ps _ d (w.received ++ []) (append-nil w.received)
            (find_queue-get_other me id d.queue w.bus differ d.subscribed))
  ]

  run-Delivered :
      (me : ℕ) (es : List (Event P)) (w : World P) (ps : List P) (t : ℕ × ℕ)
      → AllStay me es
      → Delivered me w ps t
      → Delivered me (run me es w) (ps ++ published es) (tally me es t)
  unfolding run
  run-Delivered me [] w ps t stay d = subst (λ xs. Delivered me w xs t) (sym (append-nil ps)) d
  run-Delivered me (e ∷ es) w ps (waiting, missed) stay d =
      let next = tally_one me e (waiting, missed) in
      subst (λ xs. Delivered me (run me es (step me e w)) xs (tally me es next))
        (append_assoc ps (published_by e) (published es))
        (run-Delivered me es (step me e w) (ps ++ published_by e) next stay.1
          (step-Delivered me e w ps waiting missed stay.0 d))

  -- A client that subscribes gets the payloads published from then on. Its queue holds the newest of
  -- them without a gap, at most 64; of the older ones it has got all but those it has missed, in order
  -- and each once. How many wait and how many it has missed is counted from the events: it misses one
  -- for each payload that is published while 64 wait, and no other. So a client that never lets 64
  -- wait while one is published has got every older payload. Whatever the other clients do.
  pub subscribe-Delivered :
      (me : ℕ) (es : List (Event P)) (qs : Subscribers P)
      → find_queue me qs ≡ none
      → AllStay me es
      → Delivered me
          (run me es (record { bus = subscribe me qs; received = [] }))
          (published es)
          (tally me es (0, 0))
  subscribe-Delivered me es qs fresh stay =
      run-Delivered me es (record { bus = subscribe me qs; received = [] }) [] (0, 0) stay
        (record {
          older = [];
          queue = record { id = me; items = [] };
          subscribed = find_queue-subscribe_new me qs fresh;
          newest = refl;
          in_order = Sublist_refl [];
          waiting = refl;
          missed = refl;
          complete = λ none_. refl;
          bounded = omega arith;
        })
