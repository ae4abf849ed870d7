-- ===== src/Ingest/Batcher/Drain.antt =====
-- Left to itself, the loop answers every request that was accepted.
use ddash.Base.{
  ℕ, zero, suc, ℤ, List, [], ◌∷◌, ◌++◌, length, leb, ◌≡◌, refl, ap, sym, ◌∙◌, arith, inl, inr,
  Bool-cases,
}
use mathlib.Core.List.{append-nil}
use ddash.Store.{World}
use ddash.Ingest.Batcher.{
  Request, Batcher, new_ingest_batcher, collect, received, receive, flush_some, tick,
}
use ddash.Ingest.Batcher.Steps.{
  Run, loop_receives, loop_ticks, answered, IsConsistent, Run-IsConsistent, flush-IsFlushed,
}

-- The loop receives as often as the number says.
abbrev pub receive_times : ℕ → Batcher → Batcher
receive_times zero b = b
receive_times (suc n) b = receive_times n (receive b)

-- The loop receives what waits, and then meets a tick.
abbrev pub drain : Batcher → Batcher
drain b = tick (receive_times (length b.queue) b)

collect-queue : (r : Request) (b : Batcher) → (collect r b).queue ≡ b.queue
unfolding collect
collect-queue r b = elim (Bool-cases (leb b.batch_size (length (b.batch ++ r ∷ [])))) [
  | inl full ↦ rw full (flush-IsFlushed (record b { batch = b.batch ++ r ∷ [] })).1
  | inr more ↦ rw more refl
]

receive-queue :
    (r : Request) (q : List Request) (b : Batcher) → b.queue ≡ r ∷ q → (receive b).queue ≡ q
unfolding receive
receive-queue r q b e = ap (λ l. (received l b).queue) e ∙ collect-queue r (record b { queue = q })

receive_times-queue : (n : ℕ) (b : Batcher) → length b.queue ≡ n → (receive_times n b).queue ≡ []
receive_times-queue zero b h = empty b.queue h
  where
    empty : (q : List Request) → length q ≡ 0 → q ≡ []
    empty [] e = refl
    empty (r ∷ q) e = absurd (omega arith)
receive_times-queue (suc n) b h = receive_times-queue n (receive b) (shorter b.queue refl)
  where
    shorter : (q : List Request) → b.queue ≡ q → length (receive b).queue ≡ n
    shorter [] e = absurd (omega (arith, h, ap length e))
    shorter (r ∷ q) e = ap length (receive-queue r q b e) ∙ omega (arith, h, ap length e)

tick-batch : (b : Batcher) → ((tick b).batch ≡ []) × ((tick b).queue ≡ b.queue)
unfolding tick
tick-batch b = cases b.batch refl
  where
    cases :
        (batch : List Request)
        → b.batch ≡ batch
        → ((flush_some batch b).batch ≡ []) × ((flush_some batch b).queue ≡ b.queue)
    cases [] e = (e, refl)
    cases (r ∷ rs) e = ((flush-IsFlushed b).0, (flush-IsFlushed b).1)

receive_times-Run :
    (start : Batcher) (h : List Request) (n : ℕ) (b : Batcher)
    → Run start h b
    → Run start h (receive_times n b)
receive_times-Run start h zero b run = run
receive_times-Run start h (suc n) b run =
    receive_times-Run start h n (receive b) (loop_receives run)

-- From every state that callers and the loop reach from a new batcher: once the loop has received
-- what waits in the queue and meets a tick, the answered requests are the accepted ones, in the
-- order of their calls.
pub drain-answers :
    (size : ℤ) (w : World) (h : List Request) (b : Batcher)
    → Run (new_ingest_batcher size w) h b
    → answered (drain b) ≡ h
drain-answers size w h b run =
    let last : Batcher = receive_times (length b.queue) b in
    let (emptied, kept) = tick-batch last in
    let none_waits : (drain b).queue ≡ [] = kept ∙ receive_times-queue (length b.queue) b refl in
    let c : IsConsistent h (drain b) =
      Run-IsConsistent size w h (drain b)
        (loop_ticks (receive_times-Run (new_ingest_batcher size w) h (length b.queue) b run)) in
    sym (append-nil (answered (drain b)))
    ∙ ap (λ l. answered (drain b) ++ l) (sym (ap (λ l. l ++ (drain b).queue) emptied ∙ none_waits))
    ∙ c.in_order
