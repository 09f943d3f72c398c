-- ===== src/Engine/Delayed/Kept.antt =====
-- That the delayed queue keeps its packets, and until when.
use influence_platform.Prelude.{
  ℕ, zero, suc, ◌+◌, ◌≡◌, refl, Bool, true, false, ◌&&◌, ◌||◌, not, List, [], ◌∷◌, map, leb, filter,
  any, arith,
}
use influence_platform.Js.Text.{Text, ◌===◌}
use influence_platform.Js.Trim.{===_iff, ===-refl}
use influence_platform.Engine.Delayed.{
  DelayedQueues, push_delayed, due, push_ready, remove_delayed, move_items, poll_delayed_queue,
  without,
}

abbrev pub is_delayed : Text → DelayedQueues → Bool
is_delayed payload q = any (λ ((t, score) : Text × ℕ). t === payload) q.delayed

abbrev pub is_ready : Text → DelayedQueues → Bool
is_ready payload q = any (λ t. t === payload) q.ready

any-without :
    (payload item : Text) (items : List (Text × ℕ))
    → any (λ ((t, score) : Text × ℕ). t === payload) (without item items)
      ≡ (any (λ ((t, score) : Text × ℕ). t === payload) items && not (item === payload))
any-without payload item [] = refl
any-without payload item ((t, score) ∷ items) =
    ground (
      arith,
      any-without payload item items,
      ===_iff t payload,
      ===_iff t item,
      ===_iff item payload,
    )

move_items_kept :
    (payload : Text) (n : ℕ) (items : List Text) (q : DelayedQueues)
    → (is_delayed payload q || is_ready payload q) ≡ true
    → (is_delayed payload (move_items n items q) || is_ready payload (move_items n items q)) ≡ true
unfolding move_items push_ready remove_delayed
move_items_kept payload n [] q kept = kept
move_items_kept payload zero (item ∷ items) q kept = kept
move_items_kept payload (suc zero) (item ∷ items) q kept = ground (arith, kept)
move_items_kept payload (suc (suc n)) (item ∷ items) q kept =
    move_items_kept payload n items (remove_delayed item (push_ready item q))
      (ground (arith, kept, any-without payload item q.delayed))

without_due :
    (payload : Text) (later : ℕ) (items : List (Text × ℕ))
    → any
        (λ t. t === payload)
        (map
          (λ ((t, score) : Text × ℕ). t)
          (filter (λ ((t, score) : Text × ℕ). leb score later) (without payload items)))
      ≡ false
without_due payload later [] = refl
without_due payload later ((t, score) ∷ items) = ground (arith, without_due payload later items)

-- A packet that is pushed is in one of the two queues after every poll, wherever the poll breaks off; and
-- it is not due before its delay is over, whatever the score was that it had.
pub poll-push_delayed :
    (now later n delay : ℕ) (payload : Text) (q : DelayedQueues)
    → ((is_delayed payload (poll_delayed_queue later n (push_delayed now payload delay q))
          || is_ready payload (poll_delayed_queue later n (push_delayed now payload delay q)))
        ≡ true)
      × (any (λ t. t === payload) (due later (push_delayed now payload delay q))
          ≡ leb (now + delay) later)
unfolding poll_delayed_queue push_delayed due
poll-push_delayed now later n delay payload q =
    let pushed = push_delayed now payload delay q in
    (
      move_items_kept payload n (due later pushed) pushed (ground (arith, ===-refl payload)),
      ground (arith, ===-refl payload, without_due payload later q.delayed),
    )
