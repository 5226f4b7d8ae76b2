-- ===== src/Ping/Times.antt =====
-- What `print_statistics` of ping.c shows of the times of a whole run.
use knetutils.Base.{ℕ, ◌-◌, ◌*◌, ◌/◌}
use knetutils.Base.{◌≡◌}
use knetutils.Base.{Option, some, List}
use knetutils.Base.{length}
use knetutils.Ping.Sqrt.{IsRoot}
use knetutils.Ping.State.{State, min_avg_max_mdev, Times}
use knetutils.Ping.Stats.{sum, sum_us, sum_squares_us}

-- The times shown: the extremes, the mean, and the deviation, whose root is that of the mean of the
-- squares less the square of the mean, in microseconds.
pub record HasTimes (st : State) (xs : List ℕ) (out : Option Times) : Type 0 where
  pub dev : ℕ
  pub root :
      IsRoot (sum_squares_us xs / length xs - sum_us xs / length xs * (sum_us xs / length xs)) dev
  pub shown : out ≡ some (min_avg_max_mdev st.rtt_min (sum xs / length xs) st.rtt_max (dev * 1000))
