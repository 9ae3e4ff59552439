-- ===== src/Remediation/Hours.antt =====
-- app/remediation/policy.py: when the change window is open.
use sre_blackboard.Common.{
  ℕ, ◌+◌, ◌-◌, ◌%◌, ◌<◌, ◌≡◌, refl, sym, ◌∙◌, subst, String, true, none, some, ltb, arith,
  partition,
}
use sre_blackboard.Remediation.Policy.{
  PolicyContext, Check, window, day, inside, clock, change_window, window_check,
}

-- The window is the arc of the day from `start` to `end`: `now` is inside exactly if less time has
-- passed since `start` than passes from `start` to `end`, also across midnight.
pub inside-arc :
    (start end now : ℕ)
    → start < day
    → end < day
    → now < day
    → inside start end now ≡ ltb ((now + day - start) % day) ((end + day - start) % day)
inside-arc start end now a b c = ground arith

all_day_clocks :
    (s : String)
    → s ≡ "00:00-24:00"
    → (clock (partition b'-' s).0 ≡ some 0) × (clock (partition b'-' s).1 ≡ some 86399999999)
unfolding clock partition
all_day_clocks s e =
    subst
      (λ z. (clock (partition b'-' z).0 ≡ some 0) × (clock (partition b'-' z).1 ≡ some 86399999999))
      (sym e) (refl, refl)

read_window :
    (ctx : PolicyContext)
    → change_window ctx
      ≡ window_check ctx
          (clock (partition b'-' ctx.change_window).0)
          (clock (partition b'-' ctx.change_window).1)
unfolding change_window
read_window ctx = refl

-- The default window, "00:00-24:00", is open at every microsecond of the day but the last.
pub change_window-all_day :
    (ctx : PolicyContext)
    → ctx.change_window ≡ "00:00-24:00"
    → (c : Check) × (change_window ctx ≡ some c)
      × (c.ok ≡ ltb (ctx.now % day) 86399999999)
      × (c.blocking ≡ true)
change_window-all_day ctx e =
    let (from, to) = all_day_clocks ctx.change_window e in
    (
      record {
        name = "change_window";
        ok = inside 0 86399999999 (ctx.now % day);
        detail = window (ctx.now % day) (inside 0 86399999999 (ctx.now % day)) ctx.change_window;
        blocking = true;
        action = none;
      },
      read_window ctx ∙ rw (from, to),
      ground arith,
      refl,
    )

window_text :
    (clock "00:00" ≡ some 0)
    × (clock "24:00" ≡ some 86399999999)
    × (clock " 6:30 " ≡ some 23400000000)
    × (clock "7" ≡ some 25200000000)
    × (clock "24:01" ≡ none)
    × (clock "x" ≡ none)
unfolding clock
window_text = (refl, refl, refl, refl, refl, refl)
