-- ===== src/Health/Device/Order.antt =====
-- `_flag_order`, and `sorted(set(flags), key=_flag_order)`.
use zigbeelens.Common.{ℕ, ◌≡◌, true, List, arith, ◌∙◌}
use zigbeelens.Common.Sorting.{has, sort_by, distinct, has-sort_by, has-distinct}
use zigbeelens.Health.Types.{HealthFlag, same_flag}

unfoldable pub flag_order : HealthFlag → ℕ
flag_order HealthFlag.unavailable = 1
flag_order HealthFlag.router_risk = 2
flag_order HealthFlag.recently_unstable = 3
flag_order HealthFlag.interview_issue = 4
flag_order HealthFlag.stale_reporting = 5
flag_order HealthFlag.weak_link = 6
flag_order HealthFlag.low_battery = 7
flag_order HealthFlag.unknown = 8
flag_order HealthFlag.healthy = 9

unfoldable pub sorted_flags : List HealthFlag → List HealthFlag
unfolding sort_by distinct flag_order same_flag
sorted_flags fs = sort_by flag_order (distinct same_flag fs)

same_flag→eq : (f g : HealthFlag) → same_flag f g ≡ true → f ≡ g
unfolding same_flag
same_flag→eq f g h = ground arith

pub has-sorted_flags :
    (f : HealthFlag) (fs : List HealthFlag) → has same_flag f (sorted_flags fs) ≡ has same_flag f fs
unfolding sorted_flags
has-sorted_flags f fs =
    has-sort_by same_flag flag_order f (distinct same_flag fs)
    ∙ has-distinct same_flag same_flag→eq f fs
