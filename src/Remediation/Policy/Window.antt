-- ===== src/Remediation/Policy/Window.antt =====
-- app/remediation/policy.py: the change window.
use sre_blackboard.Common.{
  ℕ, ◌+◌, ◌*◌, ◌%◌, String, Bool, true, ◌&&◌, ◌||◌, Option, none, some, ltb, leb, ◌==◌,
  if◌then◌else◌, partition, strip, int, or_else,
}
use sre_blackboard.Remediation.Policy.Types.{PolicyContext, window, Check}

-- Microseconds.
abbrev pub minute : ℕ
minute = 60000000

abbrev pub day : ℕ
day = 1440 * minute

-- time(hours, minutes), or time.max for 24:00; `none` is a ValueError.
abbrev pub time_of : Option ℕ → Option ℕ → Option ℕ
time_of none m = none
time_of (some h) none = none
time_of (some h) (some m) =
    if h == 24 && m == 0
    then some 86399999999
    else if ltb h 24 && ltb m 60
    then some ((h * 60 + m) * minute)
    else none

unfoldable pub clock : String → Option ℕ
unfolding partition strip int
clock value =
    let (hours, minutes) = partition b':' (strip value) in
    time_of (int hours) (int (or_else minutes "0"))

-- start <= now < end, or the two ends of the day where the window wraps
abbrev pub inside : ℕ → ℕ → ℕ → Bool
inside start end now =
    if leb start end then leb start now && ltb now end else leb start now || ltb now end

abbrev pub window_check : PolicyContext → Option ℕ → Option ℕ → Option Check
window_check ctx none end = none
window_check ctx (some start) none = none
window_check ctx (some start) (some end) =
    let ok = inside start end (ctx.now % day) in
    some (record {
      name = "change_window";
      ok = ok;
      detail = window (ctx.now % day) ok ctx.change_window;
      blocking = true;
      action = none;
    })

-- `none`: the window cannot be read, and a ValueError is raised.
unfoldable pub change_window : PolicyContext → Option Check
unfolding clock
change_window ctx =
    let (start, end) = partition b'-' ctx.change_window in
    window_check ctx (clock start) (clock end)
