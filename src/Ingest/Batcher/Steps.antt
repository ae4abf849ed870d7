-- ===== src/Ingest/Batcher/Steps.antt =====
-- The runs of the batcher, and what holds in each of their states: the bounds, and that every
-- accepted request is answered once, in the order of arrival, or still waits.
use ddash.Base.{
  zero, suc, ◌≤◌, ◌<◌, ℤ, pos, negsuc, Bool, true, false, List, [], ◌∷◌, ◌++◌, map, length,
  length-append, ltb, leb, ◌≡◌, refl, ap, sym, ◌∙◌, arith, inl, inr, Bool-cases,
}
use mathlib.Core.List.{append_assoc, map-append}
use ddash.Effect.{Err, Outcome, Result-cases, ok, err}
use ddash.Store.{World}
use ddash.Ingest.Batcher.{
  Request, Batcher, queue_capacity, clamp_size, new_ingest_batcher, append, store_batch, reply_all,
  flush, collect, receive, tick,
}

-- The runs from a batcher, with the requests that were accepted so far.
pub data Run (start : Batcher) : List Request → Batcher → Type 0 where
  begin : Run start [] start
  call_accepted :
      {h : List Request} {b : Batcher} (r : Request)
      → Run start h b
      → (append r b).0 ≡ ok tt
      → Run start (h ++ r ∷ []) (append r b).1
  call_refused :
      {h : List Request} {b : Batcher} (r : Request) (e : Err)
      → Run start h b
      → (append r b).0 ≡ err e
      → Run start h (append r b).1
  loop_receives : {h : List Request} {b : Batcher} → Run start h b → Run start h (receive b)
  loop_ticks : {h : List Request} {b : Batcher} → Run start h b → Run start h (tick b)

abbrev pub answered : Batcher → List Request
answered b = map (λ r. r.request) b.replies

pub record IsConsistent (history : List Request) (b : Batcher) : Type 0 where
  -- first in, first out, each once
  pub in_order : answered b ++ (b.batch ++ b.queue) ≡ history
  pub queue_bounded : length b.queue ≤ queue_capacity b
  pub batch_bounded : length b.batch < b.batch_size
  pub counted : b.accepted ≡ length history

map-reply_all :
    (result : Outcome) (batch : List Request)
    → map (λ r. r.request) (reply_all result batch) ≡ batch
map-reply_all result [] = refl
map-reply_all result (r ∷ rs) = ap (λ l. r ∷ l) (map-reply_all result rs)

answered-flush : (b : Batcher) → answered (flush b) ≡ answered b ++ b.batch
unfolding flush
answered-flush b = elim (Result-cases (store_batch b.batch b.world).0) [
  | inl (e, failed) ↦ rw failed (
      map-append (λ r. r.request) b.replies (reply_all (err e) b.batch)
      ∙ ap (λ l. answered b ++ l) (map-reply_all (err e) b.batch))
  | inr (done, stored) ↦ rw stored (
      map-append (λ r. r.request) b.replies (reply_all (ok done) b.batch)
      ∙ ap (λ l. answered b ++ l) (map-reply_all (ok done) b.batch))
]

-- A flush empties the batch and leaves the queue, the size and the count of the accepted requests.
abbrev pub IsFlushed : Batcher → Batcher → Type 0
IsFlushed b b' =
    (b'.batch ≡ [])
    × (b'.queue ≡ b.queue)
    × (b'.batch_size ≡ b.batch_size)
    × (b'.accepted ≡ b.accepted)

pub flush-IsFlushed : (b : Batcher) → IsFlushed b (flush b)
unfolding flush
flush-IsFlushed b = elim (Result-cases (store_batch b.batch b.world).0) [
  | inl (e, failed) ↦ rw failed (refl, refl, refl, refl)
  | inr (done, stored) ↦ rw stored (refl, refl, refl, refl)
]

flush-IsConsistent :
    (h : List Request) (b : Batcher)
    → answered b ++ (b.batch ++ b.queue) ≡ h
    → length b.queue ≤ queue_capacity b
    → 0 < b.batch_size
    → b.accepted ≡ length h
    → IsConsistent h (flush b)
flush-IsConsistent h b order bound size count =
    let (emptied, kept, same, total) = flush-IsFlushed b in
    record {
      in_order =
          rw (emptied, kept, answered-flush b) (append_assoc (answered b) b.batch b.queue ∙ order);
      queue_bounded = rw (kept, same) bound;
      batch_bounded = rw (emptied, same) size;
      counted = total ∙ count;
    }

abbrev is_accepted : Outcome → Bool
is_accepted (ok _) = true
is_accepted (err _) = false

append-accepted :
    (h : List Request) (r : Request) (b : Batcher)
    → IsConsistent h b
    → (append r b).0 ≡ ok tt
    → IsConsistent (h ++ r ∷ []) (append r b).1
unfolding append
append-accepted h r b c passed = elim (Bool-cases (ltb (length b.queue) (queue_capacity b))) [
  | inl room ↦ rw room (record {
    in_order =
        ap (λ l. answered b ++ l) (sym (append_assoc b.batch b.queue (r ∷ [])))
        ∙ sym (append_assoc (answered b) (b.batch ++ b.queue) (r ∷ []))
        ∙ ap (λ l. l ++ r ∷ []) c.in_order;
    queue_bounded = rw (length-append b.queue (r ∷ [])) (ground arith);
    batch_bounded = c.batch_bounded;
    counted = rw (length-append h (r ∷ [])) (omega (arith, c.counted));
  })
  | inr full ↦
      let broken : false ≡ true = ap is_accepted (rw full at passed) in absurd (ground arith)
]

append-refused :
    (h : List Request) (r : Request) (e : Err) (b : Batcher)
    → IsConsistent h b
    → (append r b).0 ≡ err e
    → IsConsistent h (append r b).1
unfolding append
append-refused h r e b c failed = elim (Bool-cases (ltb (length b.queue) (queue_capacity b))) [
  | inl room ↦
      let broken : true ≡ false = ap is_accepted (rw room at failed) in absurd (ground arith)
  | inr full ↦ rw full c
]

collect-IsConsistent :
    (h : List Request) (r : Request) (b : Batcher)
    → IsConsistent h (record b { queue = r ∷ b.queue })
    → IsConsistent h (collect r b)
unfolding collect
collect-IsConsistent h r b c =
    let order : answered b ++ (b.batch ++ r ∷ [] ++ b.queue) ≡ h =
      ap (λ l. answered b ++ l) (append_assoc b.batch (r ∷ []) b.queue) ∙ c.in_order in
    elim (Bool-cases (leb b.batch_size (length (b.batch ++ r ∷ [])))) [
      | inl full ↦ rw full (
          flush-IsConsistent h (record b { batch = b.batch ++ r ∷ [] }) order
            (omega (arith, c.queue_bounded)) (omega (arith, c.batch_bounded)) c.counted)
      | inr more ↦ rw more (record {
        in_order = order;
        queue_bounded = omega (arith, c.queue_bounded);
        batch_bounded = ground arith;
        counted = c.counted;
      })
    ]

receive-IsConsistent :
    (h : List Request) (b : Batcher) → IsConsistent h b → IsConsistent h (receive b)
unfolding receive
receive-IsConsistent h b c = cases b.queue refl
  where
    cases : (q : List Request) → b.queue ≡ q → IsConsistent h (receive b)
    cases [] e = rw e (rw e at c)
    cases (r ∷ q) e = rw e (collect-IsConsistent h r (record b { queue = q }) (rw e at c))

tick-IsConsistent : (h : List Request) (b : Batcher) → IsConsistent h b → IsConsistent h (tick b)
unfolding tick
tick-IsConsistent h b c = cases b.batch refl
  where
    cases : (batch : List Request) → b.batch ≡ batch → IsConsistent h (tick b)
    cases [] e = rw e (rw e at c)
    cases (r ∷ rs) e =
        let c' : IsConsistent h (record b { batch = r ∷ rs }) = rw e at c in
        rw e (
          flush-IsConsistent h (record b { batch = r ∷ rs }) c'.in_order c'.queue_bounded
            (omega (arith, c'.batch_bounded)) c'.counted)

clamp_size_positive : (size : ℤ) → 0 < clamp_size size
unfolding clamp_size
clamp_size_positive (negsuc n) = omega arith
clamp_size_positive (pos zero) = omega arith
clamp_size_positive (pos (suc n)) = ground arith

begin-IsConsistent : (size : ℤ) (w : World) → IsConsistent [] (new_ingest_batcher size w)
unfolding new_ingest_batcher
begin-IsConsistent size w = record {
  in_order = refl;
  queue_bounded = omega arith;
  batch_bounded = clamp_size_positive size;
  counted = refl;
}

-- In every state that callers and the loop reach from a new batcher, whatever the store does: the
-- queue and the batch are within their bounds, and the answered requests, the batch and the queue
-- are, in this order, the accepted requests in the order of their calls.
pub Run-IsConsistent :
    (size : ℤ) (w : World) (h : List Request) (b : Batcher)
    → Run (new_ingest_batcher size w) h b
    → IsConsistent h b
Run-IsConsistent size w h b run = keep run
  where
    keep : {h : List Request} {b : Batcher} → Run (new_ingest_batcher size w) h b → IsConsistent h b
    keep begin = begin-IsConsistent size w
    keep (call_accepted r run passed) = append-accepted _ r _ (keep run) passed
    keep (call_refused r e run failed) = append-refused _ r e _ (keep run) failed
    keep (loop_receives run) = receive-IsConsistent _ _ (keep run)
    keep (loop_ticks run) = tick-IsConsistent _ _ (keep run)
