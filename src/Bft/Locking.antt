-- ===== src/Bft/Locking.antt =====
-- bft-core.go (and dbft-core.go alike): how waitResponse and a receiveResponse share the lock and the
-- channel `tunnel`, which holds no value of its own.
pub mod Progress
use galaxy.Base.{Bool, true, false}

-- Where waitResponse stands: in its select; at mutex.Lock, after the timeout or with all signatures;
-- past mutex.Unlock, with `commit` true; or back from `instance.result <-`.
pub data Waiter : Type 0 where
  selecting locking unlocked returned : Waiter

-- Where receiveResponse stands, which handleConnection runs once at a time: it does not run, it has
-- mutex.RLock, it sends on the channel, or it is past that and about to return. Only `idle` is without
-- the lock.
pub data Responder : Type 0 where
  idle reading sending leaving : Responder

pub record Locks : Type 0 where
  pub waiter : Waiter
  pub responder : Responder
  pub committed : Bool  -- instance.commit

-- The round as receiveRequest starts it.
abbrev pub round_start : Locks
round_start = record { waiter = selecting; responder = idle; committed = false }

-- Where the tunnel case of waitResponse goes: whether maybeCommit gave as many signatures as peers.
abbrev pub after_round : Bool → Waiter
after_round true = locking
after_round false = selecting

-- One action of one of the two. Lock waits until nobody has RLock.
pub data Act : Locks → Locks → Type 0 where
  -- A response comes in and takes RLock.
  arrive :
      (w : Waiter) (c : Bool)
      → Act
          (record { waiter = w; responder = idle; committed = c })
          (record { waiter = w; responder = reading; committed = c })
  -- It is refused, or `commit` is set: RUnlock.
  refuse :
      (w : Waiter) (c : Bool)
      → Act
          (record { waiter = w; responder = reading; committed = c })
          (record { waiter = w; responder = idle; committed = c })
  -- It counts, which it can only if `commit` is not set: `instance.tunnel <- 1` begins.
  count :
      (w : Waiter)
      → Act
          (record { waiter = w; responder = reading; committed = false })
          (record { waiter = w; responder = sending; committed = false })
  -- The two meet at the channel.
  meet :
      (c all : Bool)
      → Act
          (record { waiter = selecting; responder = sending; committed = c })
          (record { waiter = after_round all; responder = leaving; committed = c })
  -- RUnlock after the channel.
  leave :
      (w : Waiter) (c : Bool)
      → Act
          (record { waiter = w; responder = leaving; committed = c })
          (record { waiter = w; responder = idle; committed = c })
  -- The timer of five seconds ends.
  expire :
      (r : Responder) (c : Bool)
      → Act
          (record { waiter = selecting; responder = r; committed = c })
          (record { waiter = locking; responder = r; committed = c })
  -- Lock, the store to `commit`, and Unlock.
  lock :
      (c : Bool)
      → Act
          (record { waiter = locking; responder = idle; committed = c })
          (record { waiter = unlocked; responder = idle; committed = true })
  -- ToConsensus takes the result.
  finish :
      (r : Responder) (c : Bool)
      → Act
          (record { waiter = unlocked; responder = r; committed = c })
          (record { waiter = returned; responder = r; committed = c })

-- What a round reaches.
pub data Happens : Locks → Type 0 where
  begun : Happens round_start
  acted : {l m : Locks} → Happens l → Act l m → Happens m
