-- ===== src/EventBus/Missed.antt =====
-- What a client of app/event_bus.py has got, what waits for it and what it has missed.
use ai_routing.Prelude.{
  ℕ, zero, suc, ◌+◌, ◌≤◌, ◌-◌, leb, length-append, length-drop, ◌≡◌, refl, sym, ap, subst, ◌∙◌,
  some, List, [], ◌∷◌, ◌++◌, arith, ◌==◌, if◌then◌else◌, length, drop, last, length-last-le,
}
use mathlib.Core.List.{Sublist, nil-sublist, append_assoc, append-nil}
use mathlib.Core.List.Sublist.{append as Sublist_append, refl as Sublist_refl}
use ai_routing.EventBus.{Queue, Subscribers, publish, find_queue, taken, max_queue_size}
use ai_routing.EventBus.Queues.{offer-last, find_queue-publish}
use ai_routing.EventBus.Events.{Event, subscribes, unsubscribes, gets, publishes, World, delivered}

module _ {P : Type 0} where
  -- How many payloads wait for a client and how many it has missed, counted from the events alone: a
  -- payload that is published while 64 wait costs it the oldest of these.
  abbrev pub tally_one : ℕ → Event P → ℕ × ℕ → ℕ × ℕ
  tally_one me (publishes p) (waiting, missed) =
      if leb max_queue_size waiting then (waiting, missed + 1) else (waiting + 1, missed)
  tally_one me (gets id) (waiting, missed) = (if me == id then waiting - 1 else waiting, missed)
  tally_one me (subscribes id) t = t
  tally_one me (unsubscribes id) t = t

  abbrev pub tally : ℕ → List (Event P) → ℕ × ℕ → ℕ × ℕ
  tally me [] t = t
  tally me (e ∷ es) t = tally me es (tally_one me e t)

  -- Of the payloads `ps`, the queue holds the newest without a gap, as many as wait by the count; and
  -- the client has got all the older ones but as many as it has missed by the count, in order and each
  -- once. If it has missed none, it has got exactly the older ones.
  pub record Delivered (me : ℕ) (w : World P) (ps : List P) (t : ℕ × ℕ) : Type 0 where
    pub older : List P
    pub queue : Queue P
    pub subscribed : find_queue me w.bus ≡ some queue
    pub newest : ps ≡ older ++ queue.items
    pub in_order : Sublist w.received older
    pub waiting : length queue.items ≡ t.0
    pub missed : length older ≡ length w.received + t.1
    pub complete : t.1 ≡ 0 → w.received ≡ older
    pub bounded : length queue.items ≤ max_queue_size

  split : (k : ℕ) (xs : List P) → (front : List P) × (xs ≡ front ++ drop k xs)
  split zero xs = ([], refl)
  split (suc k) [] = ([], refl)
  split (suc k) (x ∷ xs) = let (front, e) = split k xs in (x ∷ front, ap (λ ys. x ∷ ys) e)

  -- The front of a list is as long as what is dropped.
  split-length : (k : ℕ) (xs : List P) → k ≤ length xs → length (split k xs).0 ≡ k
  split-length k xs h =
      let (front, parts) = split k xs in
      omega (arith, h, ap length parts, length-append front (drop k xs), length-drop k xs)

  nil_of_length : (xs : List P) → length xs ≡ 0 → xs ≡ []
  nil_of_length [] h = refl
  nil_of_length (x ∷ xs) h = absurd (omega (arith, h))

  more_older : (xs older new : List P) → Sublist xs older → Sublist xs (older ++ new)
  more_older xs older new s =
      subst (λ ys. Sublist ys (older ++ new)) (append-nil xs) (Sublist_append s (nil-sublist new))

  -- A step that neither publishes nor touches the queue.
  pub unmoved :
      (me : ℕ) (w : World P) (bus : Subscribers P) (ps : List P) (t : ℕ × ℕ)
      (d : Delivered me w ps t)
      → (received : List P) → received ≡ w.received
      → find_queue me bus ≡ some d.queue
      → Delivered me (record { bus = bus; received = received }) (ps ++ []) t
  unmoved me w bus ps t d received same there = record {
    older = d.older;
    queue = d.queue;
    subscribed = there;
    newest = append-nil ps ∙ d.newest;
    in_order = subst (λ xs. Sublist xs d.older) (sym same) d.in_order;
    waiting = d.waiting;
    missed = d.missed ∙ ap (λ xs. length xs + t.1) (sym same);
    complete = λ none_. same ∙ d.complete none_;
    bounded = d.bounded;
  }

  pub publish-Delivered :
      (me : ℕ) (p : P) (w : World P) (ps : List P) (waiting missed : ℕ)
      → Delivered me w ps (waiting, missed)
      → Delivered me
          (record w { bus = publish p w.bus })
          (ps ++ (p ∷ []))
          (tally_one me (publishes p) (waiting, missed))
  publish-Delivered me p w ps waiting missed d =
      let all = d.queue.items ++ (p ∷ []) in
      let k = length all - max_queue_size in
      let (front, parts) = split k all in
      let long : length front ≡ k = split-length k all (omega arith) in
      let one = length-append d.queue.items (p ∷ []) in
      let held = d.waiting in
      let most = d.bounded in
      let behind = d.missed in
      let kept = length-drop k all in
      record {
        older = d.older ++ front;
        queue = record (d.queue) { items = last max_queue_size all };
        subscribed =
            find_queue-publish me p d.queue w.bus d.subscribed
            ∙ ap some (offer-last p d.queue d.bounded);
        newest =
            ap (λ xs. xs ++ (p ∷ [])) d.newest
            ∙ append_assoc d.older d.queue.items (p ∷ [])
            ∙ ap (λ xs. d.older ++ xs) parts
            ∙ sym (append_assoc d.older front (last max_queue_size all));
        in_order = more_older w.received d.older front d.in_order;
        waiting = ground (arith, one, held, most, kept);
        missed = ground (arith, length-append d.older front, long, one, held, most, behind);
        complete = λ none_.
            let nothing : front ≡ [] =
              nil_of_length front (ground (arith, long, one, held, none_)) in
            d.complete (ground (arith, none_))
            ∙ sym (append-nil d.older)
            ∙ ap (λ xs. d.older ++ xs) (sym nothing);
        bounded = length-last-le max_queue_size all;
      }

  pub take-Delivered :
      (me : ℕ) (w : World P) (bus : Subscribers P) (ps : List P) (waiting missed : ℕ)
      (d : Delivered me w ps (waiting, missed))
      → find_queue me bus ≡ some ((taken d.queue).1)
      → Delivered me
          (record { bus = bus; received = w.received ++ delivered (taken d.queue).0 })
          (ps ++ [])
          (waiting - 1, missed)
  take-Delivered me w bus ps waiting missed d there =
      by_items d.queue.items there d.newest d.bounded d.waiting
    where
      with_items : List P → Queue P
      with_items items = record { id = d.queue.id; items = items }

      by_items :
          (items : List P)
          → find_queue me bus ≡ some ((taken (with_items items)).1)
          → ps ≡ d.older ++ items
          → length items ≤ max_queue_size
          → length items ≡ waiting
          → Delivered me
              (record {
                bus = bus;
                received = w.received ++ delivered (taken (with_items items)).0;
              })
              (ps ++ [])
              (waiting - 1, missed)
      by_items [] there newest bounded held = record {
        older = d.older;
        queue = with_items [];
        subscribed = there;
        newest = append-nil ps ∙ newest;
        in_order = subst (λ xs. Sublist xs d.older) (sym (append-nil w.received)) d.in_order;
        waiting = omega (arith, held);
        missed = d.missed ∙ ap (λ xs. length xs + missed) (sym (append-nil w.received));
        complete = λ none_. append-nil w.received ∙ d.complete none_;
        bounded = bounded;
      }
      by_items (x ∷ xs) there newest bounded held = record {
        older = d.older ++ (x ∷ []);
        queue = with_items xs;
        subscribed = there;
        newest = append-nil ps ∙ newest ∙ sym (append_assoc d.older (x ∷ []) xs);
        in_order = Sublist_append d.in_order (Sublist_refl (x ∷ []));
        waiting = omega (arith, held);
        missed =
            let behind = d.missed in
            omega
              (arith, behind, length-append d.older (x ∷ []), length-append w.received (x ∷ []));
        complete = λ none_. ap (λ ys. ys ++ (x ∷ [])) (d.complete none_);
        bounded = omega (arith, bounded);
      }
