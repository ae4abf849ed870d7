-- ===== src/Ingest/Batcher.antt =====
-- The batcher: callers put requests into a bounded queue, one goroutine collects them into a batch
-- and flushes it to the store. A flush runs between two receives; calls that come meanwhile only
-- touch the queue, which the flush does not, so a step is a whole call or a whole turn of the loop.
pub mod Steps
pub mod Acknowledged
pub mod Drain
use ddash.Base.{
  ℕ, zero, suc, ◌+◌, ◌*◌, ℤ, pos, negsuc, nonpos, Bool, Option, none, some, List, [], ◌∷◌, ◌++◌,
  map, length, ltb, leb, if◌then◌else◌,
}
use ddash.Effect.{Err, Outcome, Result, ok, err, ingest_busy, Exec, ◌>>=◌, ◌>>◌}
use ddash.Store.{World}
use ddash.Ingest.Sdk.{EventRecord}
use ddash.Ingest.Service.{open_store, append_events}

pub record Request : Type 0 where
  -- tells requests with equal events apart, as their result channels do
  pub ticket : ℕ
  pub event : EventRecord

pub record Reply : Type 0 where
  pub request : Request
  pub result : Outcome

pub record Batcher : Type 0 where
  pub batch_size : ℕ
  pub queue : List Request
  pub batch : List Request
  -- the counters that the loop logs
  pub accepted : ℕ
  pub flush_batches : ℕ
  pub flush_events : ℕ
  pub flush_errors : ℕ
  -- what was sent into the result channels, and the database behind the store factory
  pub replies : List Reply
  pub world : World

abbrev pub queue_capacity : Batcher → ℕ
queue_capacity b = b.batch_size * 8

-- `NewEventIngestServiceWithConfig`: between 1 and 2000, and 100 for what is no size.
unfoldable pub clamp_size : ℤ → ℕ
clamp_size (negsuc n) = 100
clamp_size (pos zero) = 100
clamp_size (pos (suc n)) = if ltb 2000 (suc n) then 2000 else suc n

unfoldable pub new_ingest_batcher : ℤ → World → Batcher
unfolding clamp_size
new_ingest_batcher size world = record {
  batch_size = clamp_size size;
  queue = [];
  batch = [];
  accepted = 0;
  flush_batches = 0;
  flush_events = 0;
  flush_errors = 0;
  replies = [];
  world = world;
}

-- The first `select` of `append`, for a caller whose context is not done.
unfoldable pub append : Request → Batcher → Outcome × Batcher
append r b =
    if ltb (length b.queue) (queue_capacity b)
    then (ok tt, record b { queue = b.queue ++ r ∷ []; accepted = suc b.accepted })
    else (err ingest_busy, b)

unfoldable pub store_batch : List Request → Exec World Unit
store_batch batch = do open_store; append_events (map (λ r. r.event) batch)

abbrev pub reply_all : Outcome → List Request → List Reply
reply_all result batch = map (λ r. record { request = r; result = result }) batch

abbrev pub flushed : List Request → Batcher → Outcome × World → Batcher
flushed batch b (ok done, world) = record b {
  flush_batches = suc b.flush_batches;
  flush_events = b.flush_events + length batch;
  replies = b.replies ++ reply_all (ok done) batch;
  batch = [];
  world = world;
}
flushed batch b (err e, world) = record b {
  flush_errors = suc b.flush_errors;
  replies = b.replies ++ reply_all (err e) batch;
  batch = [];
  world = world;
}

-- `flush`, with the reset of the batch that follows each call of it.
unfoldable pub flush : Batcher → Batcher
unfolding store_batch
flush b = flushed b.batch b (store_batch b.batch b.world)

unfoldable pub collect : Request → Batcher → Batcher
unfolding flush
collect r b =
    let b' : Batcher = record b { batch = b.batch ++ r ∷ [] } in
    if leb b.batch_size (length b'.batch) then flush b' else b'

abbrev pub received : List Request → Batcher → Batcher
received [] b = b
received (r ∷ queue) b = collect r (record b { queue = queue })

-- A turn of the loop that receives; on an empty queue the loop waits.
unfoldable pub receive : Batcher → Batcher
unfolding collect
receive b = received b.queue b

abbrev pub flush_some : List Request → Batcher → Batcher
flush_some [] b = b
flush_some (_ ∷ _) b = flush b

-- A turn of the loop at a tick of the flush interval.
unfoldable pub tick : Batcher → Batcher
unfolding flush
tick b = flush_some b.batch b
