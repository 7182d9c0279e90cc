-- ===== src/Bft/Locking/Progress.antt =====
-- Where the lock and the channel let a round go on.
use galaxy.Base.{◌≡◌, ◌≢◌, refl, ◌↔◌, Bool, true, false, arith}
use galaxy.Bft.Locking.{
  Waiter, Responder, Locks, Act, Happens, selecting, locking, unlocked, returned, idle, reading,
  sending, leaving, begun, acted, arrive, refuse, count, meet, leave, expire, lock, finish,
}

-- Nobody sends once `commit` is set, and it is set where waitResponse is past Unlock.
IsSound : Waiter → Responder → Bool → Type 0
IsSound w sending true = ⊥
IsSound unlocked r false = ⊥
IsSound returned r false = ⊥
IsSound w r c = Unit {0}

Act-IsSound :
    {l m : Locks}
    → Act l m
    → IsSound l.waiter l.responder l.committed
    → IsSound m.waiter m.responder m.committed
unfolding IsSound
Act-IsSound (arrive w c) h = ground arith
Act-IsSound (refuse w c) h = ground arith
Act-IsSound (count w) h = ground arith
Act-IsSound (meet c all) h = ground arith
Act-IsSound (leave w c) h = ground arith
Act-IsSound (expire r c) h = ground arith
Act-IsSound (lock c) h = tt
Act-IsSound (finish r c) h = ground arith

Happens-IsSound : {l : Locks} → Happens l → IsSound l.waiter l.responder l.committed
unfolding IsSound
Happens-IsSound begun = tt
Happens-IsSound (acted h a) = Act-IsSound a (Happens-IsSound h)

-- Whether the two wait for each other.
abbrev pub Deadlocked : Locks → Type 0
Deadlocked l = (l.waiter ≡ locking) × (l.responder ≡ sending)

Deadlocked-stuck : {l m : Locks} → Act l m → ¬ Deadlocked l
Deadlocked-stuck (arrive w c) d = cc
Deadlocked-stuck (refuse w c) d = cc
Deadlocked-stuck (count w) d = cc
Deadlocked-stuck (meet c all) d = cc
Deadlocked-stuck (leave w c) d = cc
Deadlocked-stuck (expire r c) d = cc
Deadlocked-stuck (lock c) d = cc
Deadlocked-stuck (finish r c) d = cc

stuck-Deadlocked :
    (w : Waiter) (r : Responder) (c : Bool)
    → IsSound w r c
    → ((m : Locks) → ¬ Act (record { waiter = w; responder = r; committed = c }) m)
    → Deadlocked (record { waiter = w; responder = r; committed = c })
unfolding IsSound
stuck-Deadlocked w idle c h n = absurd (n _ (arrive w c))
stuck-Deadlocked w reading c h n = absurd (n _ (refuse w c))
stuck-Deadlocked w leaving c h n = absurd (n _ (leave w c))
stuck-Deadlocked selecting sending c h n = absurd (n _ (meet c true))
stuck-Deadlocked locking sending c h n = (refl, refl)
stuck-Deadlocked unlocked sending c h n = absurd (n _ (finish sending c))
stuck-Deadlocked returned sending c h n = ground arith

-- A round comes to a stop exactly where waitResponse is at Lock and receiveResponse sends on the channel
-- under its RLock: each then waits for the other for ever. A round reaches such a state, when the timer
-- ends before the send is taken. In every other state that it reaches something can go on, and nobody
-- sends once `commit` is set.
pub round_stops :
    (l : Locks)
    → Happens l
    → (((m : Locks) → ¬ Act l m) ↔ Deadlocked l)
      × Happens (record { waiter = locking; responder = sending; committed = false })
      × (l.committed ≡ true → l.responder ≢ sending)
unfolding IsSound
round_stops l h =
    let sound = Happens-IsSound h in
    (
      (
        (λ n. stuck-Deadlocked l.waiter l.responder l.committed sound n),
        (λ d m a. Deadlocked-stuck a d),
      ),
      acted (acted (acted begun (arrive selecting false)) (count selecting)) (expire sending false),
      (λ c s. ground arith),
    )
