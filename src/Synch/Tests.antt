-- ===== src/Synch/Tests.antt =====
-- Two threads on a lock: thread 0 has it, and thread 1 waits.
use cs439_project.Prelude.{ℕ, true, false, [], some, none, ◌≡◌, ◌⊎◌, refl, count, ok, panic}
use cs439_project.Synch.Lock.{
  lock_init, lock_acquire, lock_release, lock_held_by_current_thread, trying, holding, leaving,
  World, move, try_round, set_holder, give_back, acquire, round, own, fresh_world, Reach, start,
  later,
}
use cs439_project.Synch.Invariant.{owns}
use cs439_project.Synch.Exclusion.{
  is_holding, mutual_exclusion, lock_held_by_current_thread-right, no_lost_wakeup,
}

lock_acquire-fresh :
    lock_acquire false 7 lock_init
    ≡ ok (record { semaphore = record { value = 0; waiters = [] }; holder = some 7 })
unfolding lock_acquire lock_init
lock_acquire-fresh = refl

-- Thread 1 may not release a lock that thread 0 has.
lock_release-other : lock_release 1 (record lock_init { holder = some 0 }) ≡ panic
unfolding lock_release lock_init
lock_release-other = refl

-- Thread 0 has gone through `lock_acquire`.
abbrev first_in : World
first_in =
    set_holder (some 0) 0 holding
      (try_round 0 (record fresh_world { place = move fresh_world.place 0 trying }))

-- Then thread 1 has called it, and is blocked.
abbrev contended : World
contended = try_round 1 (record first_in { place = move first_in.place 1 trying })

first_in-Reach : Reach first_in
unfolding fresh_world try_round lock_held_by_current_thread
first_in-Reach = later (later (later start (acquire 0 refl refl)) (round 0 refl)) (own 0 refl)

contended-Reach : Reach contended
unfolding fresh_world try_round set_holder lock_held_by_current_thread
contended-Reach = later (later first_in-Reach (acquire 1 refl refl)) (round 1 refl)

-- Thread 0 releases the lock, and thread 1 is at its test again.
woken_place : (give_back 0 (set_holder none 0 leaving contended)).place 1 ≡ trying
unfolding fresh_world try_round set_holder give_back
woken_place = refl

mutual_exclusion_example : ◌≡◌ {A = ℕ} 0 0
unfolding fresh_world try_round set_holder
mutual_exclusion_example = mutual_exclusion contended-Reach 0 0 refl refl

lock_held_by_current_thread-right_example :
    lock_held_by_current_thread 1 contended.lock ≡ is_holding (contended.place 1)
lock_held_by_current_thread-right_example = lock_held_by_current_thread-right contended-Reach 1

no_lost_wakeup_example :
    (count 1 contended.lock.semaphore.waiters ≡ 1)
    × ((u : ℕ) × ((owns (contended.place u) ≡ true)
          ⊎ ((contended.place u ≡ trying) × (owns ((try_round u contended).place u) ≡ true))))
unfolding fresh_world try_round set_holder
no_lost_wakeup_example = no_lost_wakeup contended-Reach 1 refl
