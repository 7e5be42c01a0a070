-- ===== src/Dashboard/Scheduler.antt =====
-- `DashboardPublishScheduler`: the fields that its lock protects and the critical sections.
-- A timer is known by the generation that its callback carries.
use zigbeelens.Common.{
  ℕ, ◌+◌, String, Bool, true, false, not, ◌&&◌, Option, none, some, List, [], ◌==◌, if◌then◌else◌,
  add, sorted, is_some, is_empty,
}

pub record Scheduler : Type 0 where
  pub timer : Option ℕ
  pub timer_generation : ℕ
  pub publishing : Bool
  pub pending : Bool
  pub cancelled : Bool
  pub causes : List String
  pub has_unattributed_request : Bool

-- What one call of `_publish` takes along when it begins to publish.
pub record Work : Type 0 where
  pub causes : List String
  pub has_unattributed_request : Bool

abbrev pub new_scheduler : Scheduler
new_scheduler = record {
  timer = none;
  timer_generation = 0;
  publishing = false;
  pending = false;
  cancelled = false;
  causes = [];
  has_unattributed_request = false;
}

-- `_schedule_locked` starts a timer with the next generation.
unfoldable pub schedule_locked : Scheduler → Scheduler
schedule_locked s = record s {
  timer_generation = s.timer_generation + 1;
  timer = some (s.timer_generation + 1);
}

-- `if cause is None: … else: self._causes.add(cause)`
unfoldable pub note_cause : Option String → Scheduler → Scheduler
note_cause none s = record s { has_unattributed_request = true }
note_cause (some cause) s = record s { causes = add cause s.causes }

-- `schedule`; the timer that it cancels is `s.timer`.
unfoldable pub schedule : Option String → Scheduler → Scheduler
unfolding schedule_locked note_cause
schedule cause s =
    let t = note_cause cause (record s { cancelled = false }) in
    if s.publishing then record t { pending = true } else schedule_locked t

-- The first critical section of `flush`; `_publish()` follows it.
unfoldable pub flush_begin : Scheduler → Scheduler
flush_begin s =
    let t =
      if is_some s.timer
      then record s { timer = none; timer_generation = s.timer_generation + 1 }
      else s in
    record t { cancelled = false; pending = false }

-- `cancel`, up to the wait for the publisher.
unfoldable pub cancel : Scheduler → Scheduler
cancel s = record s {
  cancelled = true;
  pending = false;
  causes = [];
  has_unattributed_request = false;
  timer = none;
  timer_generation = s.timer_generation + 1;
}

-- `timer_generation is not None and timer_generation != self._timer_generation`
unfoldable pub is_superseded : Option ℕ → Scheduler → Bool
is_superseded none s = false
is_superseded (some g) s = not (g == s.timer_generation)

-- The critical section that opens `_publish`: the new state, and the work if it goes on.
unfoldable pub publish_enter : Option ℕ → Scheduler → Scheduler × Option Work
unfolding is_superseded
publish_enter generation s =
    if is_superseded generation s
    then (s, none)
    else let t = if is_some generation then record s { timer = none } else s in
      if t.cancelled
      then (t, none)
      else if t.publishing
      then (record t { pending = true }, none)
      else (
        record t { publishing = true; causes = []; has_unattributed_request = false },
        some (record {
          causes = sorted t.causes;
          has_unattributed_request = t.has_unattributed_request;
        }),
      )

-- The causes that the published update names: `none` where it is published without causes.
unfoldable pub attribution : Work → Option (List String)
attribution w =
    if not (is_empty w.causes) && not w.has_unattributed_request then some w.causes else none

-- The `finally` block of `_publish`.
unfoldable pub publish_exit : Scheduler → Scheduler
unfolding schedule_locked
publish_exit s =
    let t = record s { publishing = false } in
    if t.pending && not t.cancelled then schedule_locked (record t { pending = false }) else t
