-- ===== src/Examples/Pool.antt =====
-- Concrete states of the pool of threads.
use npu_oj.Base.{ℕ, ◌≡◌, refl, true, ◌++◌}
use npu_oj.ThreadPool.{
  asleep, ThreadPool, joining, init_workthreads, must_wait, lock, test_queue, leave, add_task,
  locks, tests, leaves, adds, Steps, Reach, start, step,
}
use npu_oj.ThreadPool.Order.{one_in_section, taken_in_order}
use npu_oj.ThreadPool.Fifo.{QueueStep, pool_refines}
use npu_oj.ThreadPool.Shutdown.{wakeup_lost}

abbrev empty_pool : ThreadPool ℕ
empty_pool = init_workthreads

-- Thread 0 has found the queue empty.
abbrev about_to_wait : ThreadPool ℕ
about_to_wait = test_queue 0 (lock 0 empty_pool)

-- Two tasks, and thread 1 has found the queue filled.
abbrev about_to_take : ThreadPool ℕ
about_to_take = test_queue 1 (lock 1 (add_task 8 (add_task 5 empty_pool)))

about_to_take-Reach : Reach about_to_take
unfolding lock test_queue add_task must_wait
about_to_take-Reach =
    step (step (step (step start (adds 5 refl)) (adds 8 refl)) (locks 1 refl refl)) (tests 1 refl)

abbrev one_taken : ThreadPool ℕ
one_taken = leave 1 about_to_take

one_taken-Reach : Reach one_taken
unfolding lock test_queue add_task must_wait
one_taken-Reach = step about_to_take-Reach (leaves 1 refl)

one_in_section_example : ◌≡◌ {A = ℕ} 1 1
unfolding lock test_queue add_task must_wait
one_in_section_example = one_in_section about_to_take 1 1 about_to_take-Reach refl refl

taken_in_order_example : one_taken.taken ++ one_taken.tasks ≡ one_taken.added
taken_in_order_example = taken_in_order one_taken one_taken-Reach

pool_refines_example : QueueStep about_to_take one_taken
unfolding lock test_queue add_task must_wait
pool_refines_example = pool_refines about_to_take one_taken about_to_take-Reach (leaves 1 refl)

wakeup_lost_example :
    (s' : ThreadPool ℕ) × Steps about_to_wait s'
    × (s'.closing ≡ joining)
    × (s'.shutdown ≡ true)
    × (s'.threads 0 ≡ asleep)
unfolding lock test_queue must_wait
wakeup_lost_example = wakeup_lost about_to_wait 0 refl refl
