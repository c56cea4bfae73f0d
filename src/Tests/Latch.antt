-- ===== src/Tests/Latch.antt =====
-- Three waiters of which the thread that exits wakes two.
use grace.Prelude.{◌≤◌, ◌≡◌, refl, arith}
use grace.Latch.{
  System, start, wait, wake, unlatch, unlatch_step, sem_post, sem_take, make, waits, wakes,
  unlatches, Reach, here, next,
}
use grace.Latch.Safety.{no_lost_wakeup}

abbrev three_asleep : System
three_asleep = wait (wait (wait (start 3)))

all_sleep : Reach (start 3) three_asleep
unfolding start wait make
all_sleep =
    next (next (next here (waits (omega arith))) (waits (omega arith))) (waits (omega arith))

abbrev two_posts : System → System
two_posts σ = unlatch (unlatch (unlatch σ))

posts_made : {σ τ : System} → Reach σ τ → Reach σ (two_posts τ)
posts_made r = next (next (next r unlatches) unlatches) unlatches

abbrev two_woken : System
two_woken = wake (wake (two_posts three_asleep))

one_left : Reach (start 3) two_woken
unfolding start wait make wake unlatch unlatch_step sem_post sem_take
one_left =
    next (next (posts_made all_sleep) (wakes (omega arith) (omega arith)))
      (wakes (omega arith) (omega arith))

left_asleep : two_woken.asleep ≡ 1
unfolding start wait make wake unlatch unlatch_step sem_post sem_take
left_asleep = refl

abbrev both_asleep : System
both_asleep = two_posts (wait (wait (start 2)))

both_wait : Reach (start 2) both_asleep
unfolding start wait make
both_wait = posts_made (next (next here (waits (omega arith))) (waits (omega arith)))

no_lost_wakeup_example : both_asleep.asleep ≤ both_asleep.latch.semaphore
unfolding start wait make unlatch unlatch_step sem_post
no_lost_wakeup_example = no_lost_wakeup 2 both_wait (omega arith) refl
