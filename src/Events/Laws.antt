-- ===== src/Events/Laws.antt =====
-- What the insertion promises: every key stands once, and an event is stored once however often it
-- is delivered.
use ddash.Base.{
  ◌≤◌, ◌==◌, eq_iff, eq_refl, int_eq, int_eq_iff, int_eq_refl, Bool, true, false, ◌&&◌, ◌||◌, List,
  [], ◌∷◌, ◌++◌, any, count, count-append, All, ◌≡◌, refl, arith, inl, inr, Bool-cases,
}
use ddash.Store.{EventParams, EventRow, EventLog}
use ddash.Events.Log.{same_key, has_key, store_event}

-- The rows behind a batch of insertions.
abbrev pub store_events : List EventParams → EventLog → EventLog
store_events [] log = log
store_events (p ∷ ps) log = store_events ps (store_event p log)

abbrev pub IsStored : EventLog → EventParams → Type 0
IsStored log p = any (has_key p) log.rows ≡ true

any-append :
    (test : EventRow → Bool) (xs ys : List EventRow)
    → any test (xs ++ ys) ≡ any test xs || any test ys
any-append test [] ys = refl
any-append test (x ∷ xs) ys = ground (arith, any-append test xs ys)

same_key_refl : (p : EventParams) → same_key p p ≡ true
same_key_refl p =
    rw (int_eq_refl p.organization_id, eq_refl p.event_source, eq_refl p.event_id) refl

store_event-IsStored : (p : EventParams) (log : EventLog) → IsStored (store_event p log) p
unfolding store_event
store_event-IsStored p log = elim (Bool-cases (any (has_key p) log.rows)) [
  | inl known ↦ rw known known
  | inr fresh ↦ rw (fresh, any-append (has_key p) log.rows _, same_key_refl p, fresh) refl
]

store_event-keeps :
    (p q : EventParams) (log : EventLog) → IsStored log q → IsStored (store_event p log) q
unfolding store_event
store_event-keeps p q log h = elim (Bool-cases (any (has_key p) log.rows)) [
  | inl known ↦ rw known h
  | inr fresh ↦ rw (fresh, any-append (has_key q) log.rows _, h) refl
]

pub store_events-keeps :
    (ps : List EventParams) (q : EventParams) (log : EventLog)
    → IsStored log q
    → IsStored (store_events ps log) q
store_events-keeps [] q log h = h
store_events-keeps (p ∷ ps) q log h =
    store_events-keeps ps q (store_event p log) (store_event-keeps p q log h)

-- No event of a batch is missing afterwards.
pub store_events-IsStored :
    (ps : List EventParams) (log : EventLog) → All (IsStored (store_events ps log)) ps
store_events-IsStored [] log = tt
store_events-IsStored (p ∷ ps) log = (
  store_events-keeps ps p (store_event p log) (store_event-IsStored p log),
  store_events-IsStored ps (store_event p log),
)

pub store_event_known :
    (p : EventParams) (log : EventLog) → IsStored log p → store_event p log ≡ log
unfolding store_event
store_event_known p log h = rw h refl

both : (a b : Bool) → (a && b) ≡ true → (a ≡ true) × (b ≡ true)
both true b h = (refl, h)
both false b h = ground arith

-- Insertions with equal keys meet the same rows.
has_key_same : (p q : EventParams) (r : EventRow) → same_key p q ≡ true → has_key q r ≡ has_key p r
has_key_same p q r h =
    let (org, names) = both (int_eq p.organization_id q.organization_id) _ h in
    let (source, id) = both (p.event_source == q.event_source) _ names in
    let org' : p.organization_id ≡ q.organization_id = (int_eq_iff _ _).0 org in
    let source' : p.event_source ≡ q.event_source = (eq_iff _ _).0 source in
    let id' : p.event_id ≡ q.event_id = (eq_iff _ _).0 id in rw (org', source', id') refl

count_absent :
    (p q : EventParams) (rows : List EventRow)
    → same_key p q ≡ true
    → any (has_key p) rows ≡ false
    → count (has_key q) rows ≡ 0
count_absent p q [] same absent = refl
count_absent p q (r ∷ rows) same absent =
    ground (arith, has_key_same p q r same, count_absent p q rows same)

-- UNIQUE (organization_id, event_source, event_id), and `seq` counts up.
pub record IsKeyed (log : EventLog) : Type 0 where
  pub one_key : (p : EventParams) → count (has_key p) log.rows ≤ 1

one_key_after :
    (p : EventParams) (log : EventLog)
    → IsKeyed log
    → any (has_key p) log.rows ≡ false
    → (q : EventParams)
    → count (has_key q) (log.rows ++ (record { seq = log.next_seq; params = p }) ∷ []) ≤ 1
one_key_after p log k fresh q = elim (Bool-cases (same_key p q)) [
  | inl same ↦
      rw
        (count-append (has_key q) log.rows ((record { seq = log.next_seq; params = p }) ∷ []), same)
        (omega (arith, count_absent p q log.rows same fresh))
  | inr other ↦
      rw
        (
          count-append (has_key q) log.rows ((record { seq = log.next_seq; params = p }) ∷ []),
          other,
        )
        (omega (arith, k.one_key q))
]

store_event-IsKeyed : (p : EventParams) (log : EventLog) → IsKeyed log → IsKeyed (store_event p log)
unfolding store_event
store_event-IsKeyed p log k = elim (Bool-cases (any (has_key p) log.rows)) [
  | inl known ↦ rw known k
  | inr fresh ↦ rw fresh (record { one_key = one_key_after p log k fresh })
]

pub store_events-IsKeyed :
    (ps : List EventParams) (log : EventLog) → IsKeyed log → IsKeyed (store_events ps log)
store_events-IsKeyed [] log k = k
store_events-IsKeyed (p ∷ ps) log k =
    store_events-IsKeyed ps (store_event p log) (store_event-IsKeyed p log k)
