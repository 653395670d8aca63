-- ===== src/Buffer.antt =====
-- internal/buffer: the bounded channel between the ingest handler and the writer.
use sentinellog.Prelude.{
  ap, ℕ, ◌+◌, ◌^◌, ◌<◌, ◌≤◌, ◌≡◌, ◌⊎◌, inl, inr, Bool-cases, lt→ltb, Bool, true, false, List, [],
  ◌∷◌, ◌++◌, ltb, if◌then◌else◌, u64, length, arith, length-append,
}
use sentinellog.Model.{LogEntry}

-- The channel as its queued entries, oldest first. `capacity` is at least 1; a channel without a
-- buffer would hand entries over only to a waiting receiver.
pub record Buffer : Type 0 where
  pub queue : List LogEntry
  pub capacity : ℕ
  pub closed : Bool
  pub accepted : ℕ  -- atomic.Uint64
  pub shed : ℕ  -- atomic.Uint64

-- What a call of `Publish` does to its caller: nil, `ErrFull`, or the panic of a send on a closed
-- channel.
pub data Outcome : Type 0 where
  sent full panicked : Outcome

unfoldable pub new : ℕ → Buffer
new size = record { queue = []; capacity = size; closed = false; accepted = 0; shed = 0 }

unfoldable pub publish : Buffer → LogEntry → Buffer × Outcome
publish b e =
    if b.closed
    then (b, panicked)
    else if ltb (length b.queue) b.capacity
    then (record b { queue = b.queue ++ e ∷ []; accepted = u64 (b.accepted + 1) }, sent)
    else (record b { shed = u64 (b.shed + 1) }, full)

unfoldable pub close : Buffer → Buffer
close b = record b { closed = true }

unfoldable pub depth : Buffer → ℕ
depth b = length b.queue

-- A receive: an entry, the zero value of a closed and empty channel, or no entry yet.
pub data Receive : Type 0 where
  item : LogEntry → Buffer → Receive
  ended : Receive
  not_ready : Receive

receive_from : List LogEntry → Buffer → Receive
receive_from [] b = if b.closed then ended else not_ready
receive_from (e ∷ rest) b = item e (record b { queue = rest })

unfoldable pub receive : Buffer → Receive
unfolding receive_from
receive b = receive_from b.queue b

-- A publish never blocks and never grows the queue past its capacity; it sheds exactly when the
-- queue is full, and what it says is what it did.
pub publish_outcome :
    (b : Buffer) (e : LogEntry)
    → b.closed ≡ false
    → length b.queue ≤ b.capacity
    → b.shed + 1 < 2 ^ 64
    → (((publish b e).1 ≡ sent)
        × ((publish b e).0.queue ≡ b.queue ++ e ∷ [])
        × ((publish b e).0.shed ≡ b.shed)
        × (length (publish b e).0.queue ≤ b.capacity))
      ⊎ (((publish b e).1 ≡ full)
          × (length b.queue ≡ b.capacity)
          × ((publish b e).0.queue ≡ b.queue)
          × ((publish b e).0.shed ≡ b.shed + 1))
unfolding publish
publish_outcome b e open_ fits room = elim (Bool-cases (ltb (length b.queue) b.capacity)) [
  | inl free ↦ inl (
    simp (open_, free),
    simp (open_, free),
    simp (open_, free),
    simp (open_, free) (ground (arith, length-append b.queue (e ∷ []))),
  )
  | inr taken ↦
      inr
        (simp (open_, taken), ground arith, simp (open_, taken), simp (open_, taken) (omega arith))
]

-- The three results of a publish, whole.
pub publish-cases :
    (b : Buffer) (e : LogEntry)
    → ((b.closed ≡ false)
        × (publish b e
            ≡ (record b { queue = b.queue ++ e ∷ []; accepted = u64 (b.accepted + 1) }, sent)))
      ⊎ ((publish b e ≡ (record b { shed = u64 (b.shed + 1) }, full))
          ⊎ (publish b e ≡ (b, panicked)))
unfolding publish
publish-cases b e = elim (Bool-cases b.closed) [
  | inl shut ↦ inr (inr (simp shut))
  | inr open_ ↦ elim (Bool-cases (ltb (length b.queue) b.capacity)) [
    | inl free ↦ inl (open_, simp (open_, free))
    | inr taken ↦ inr (inl (simp (open_, taken)))
  ]
]

receive_from_item :
    (l : List LogEntry) (b b' : Buffer) (e : LogEntry)
    → receive_from l b ≡ item e b'
    → (l ≡ e ∷ b'.queue) × (b'.closed ≡ b.closed)
unfolding receive_from
receive_from_item [] b b' e h = ground arith
receive_from_item (x ∷ l) b b' e h = ground arith

-- A receive takes the oldest entry.
pub receive_item :
    (b b' : Buffer) (e : LogEntry)
    → receive b ≡ item e b'
    → (b.queue ≡ e ∷ b'.queue) × (b'.closed ≡ b.closed)
unfolding receive
receive_item b b' e h = receive_from_item b.queue b b' e h

receive_from_capacity :
    (l : List LogEntry) (b b' : Buffer) (e : LogEntry)
    → receive_from l b ≡ item e b'
    → b'.capacity ≡ b.capacity
unfolding receive_from
receive_from_capacity [] b b' e h = ground arith
receive_from_capacity (x ∷ l) b b' e h = ground arith

-- The queue fits into the channel.
abbrev pub IsBounded : Buffer → Type 0
IsBounded b = length b.queue ≤ b.capacity

pub receive-IsBounded :
    (b b' : Buffer) (e : LogEntry) → receive b ≡ item e b' → IsBounded b → IsBounded b'
unfolding receive
receive-IsBounded b b' e h fits =
    let (queue, same) = receive_from_item b.queue b b' e h in
    omega (arith, ap length queue, receive_from_capacity b.queue b b' e h, fits)

pub publish-IsBounded : (b : Buffer) (e : LogEntry) → IsBounded b → IsBounded (publish b e).0
unfolding publish
publish-IsBounded b e fits = elim (Bool-cases b.closed) [
  | inl shut ↦ simp shut fits
  | inr open_ ↦ elim (Bool-cases (ltb (length b.queue) b.capacity)) [
    | inl free ↦ simp (open_, free) (ground (arith, length-append b.queue (e ∷ [])))
    | inr taken ↦ simp (open_, taken) fits
  ]
]

receive_from_ended :
    (l : List LogEntry) (b : Buffer) → receive_from l b ≡ ended → (l ≡ []) × (b.closed ≡ true)
unfolding receive_from
receive_from_ended [] b h = ground arith
receive_from_ended (x ∷ l) b h = ground arith

pub receive_ended : (b : Buffer) → receive b ≡ ended → (b.queue ≡ []) × (b.closed ≡ true)
unfolding receive
receive_ended b h = receive_from_ended b.queue b h

receive_from_not_ready :
    (l : List LogEntry) (b : Buffer) → receive_from l b ≡ not_ready → (l ≡ []) × (b.closed ≡ false)
unfolding receive_from
receive_from_not_ready [] b h = ground arith
receive_from_not_ready (x ∷ l) b h = ground arith

pub receive_not_ready : (b : Buffer) → receive b ≡ not_ready → (b.queue ≡ []) × (b.closed ≡ false)
unfolding receive
receive_not_ready b h = receive_from_not_ready b.queue b h

pub publish_sent :
    (b : Buffer) (e : LogEntry)
    → b.closed ≡ false
    → length b.queue < b.capacity
    → publish b e ≡ (record b { queue = b.queue ++ e ∷ []; accepted = u64 (b.accepted + 1) }, sent)
unfolding publish
publish_sent b e open_ free =
    let fits : ltb (length b.queue) b.capacity ≡ true = lt→ltb _ _ free in simp (open_, fits)
