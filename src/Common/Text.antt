-- ===== src/Common/Text.antt =====
-- The parts of Python's str and int that the program uses, on ASCII text.
use Prim.Native.Nat.{ℕ, ◌+◌, ◌-◌, ◌*◌}
use Prim.Native.Char.{code}
use Prim.Native.String.{String}
use mathlib.Core.Bool.{Bool, true, false, ◌&&◌, ◌||◌}
use mathlib.Core.Option.{Option, none, some}
use text.Mathlib.Text.{◌==◌ as str_eq}
use sre_blackboard.Common.Tests.{leb, ◌==◌, if◌then◌else◌}

abbrev pub is_space : ℕ → Bool
is_space c = c == 32 || (leb 9 c && leb c 13) || (leb 28 c && leb c 31)

abbrev pub is_digit : ℕ → Bool
is_digit c = leb b'0' c && leb c b'9'

unfoldable pub lstrip : String → String
lstrip String.[] = String.[]
lstrip (String.◌∷◌ c s) = if is_space (code c) then lstrip s else String.◌∷◌ c s

unfoldable pub rstrip : String → String
rstrip String.[] = String.[]
rstrip (String.◌∷◌ c s) =
    let rest = rstrip s in
    if str_eq rest "" && is_space (code c) then String.[] else String.◌∷◌ c rest

-- s.strip()
unfoldable pub strip : String → String
unfolding lstrip rstrip
strip s = rstrip (lstrip s)

-- s.partition(sep), without the middle: the second part is "" where `sep` is absent.
unfoldable pub partition : ℕ → String → String × String
partition sep String.[] = (String.[], String.[])
partition sep (String.◌∷◌ c s) =
    let (before, after) = partition sep s in
    if code c == sep then (String.[], s) else (String.◌∷◌ c before, after)

-- The digits of int(s); single underscores may stand between digits. `seen`: a digit came before.
unfoldable pub int_digits : ℕ → Bool → String → Option ℕ
int_digits n seen String.[] = if seen then some n else none
int_digits n seen (String.◌∷◌ c s) =
    let rest : Option ℕ = int_digits (n * 10 + (code c - b'0')) true s in
    let skipped : Option ℕ = int_digits n false s in
    if is_digit (code c) then rest else if seen && code c == b'_' then skipped else none

abbrev pub zero_only : Option ℕ → Option ℕ
zero_only none = none
zero_only (some n) = if n == 0 then some n else none

unfoldable pub int_signed : String → Option ℕ
unfolding int_digits
int_signed String.[] = none
int_signed (String.◌∷◌ c s) =
    let positive : Option ℕ = int_digits 0 false s in
    let negative : Option ℕ = zero_only (int_digits 0 false s) in
    let plain : Option ℕ = int_digits 0 false (String.◌∷◌ c s) in
    if code c == b'+' then positive else if code c == b'-' then negative else plain

-- int(s); `none` is a ValueError or a negative number, which the callers refuse alike.
unfoldable pub int : String → Option ℕ
unfolding strip int_signed
int s = int_signed (strip s)

-- s or default
abbrev pub or_else : String → String → String
or_else s d = if str_eq s "" then d else s
