-- ===== src/Prelude/Clock.antt =====
-- Python's `datetime`: an aware value is kept as its UTC instant, in microseconds from the first
-- moment of year 1; a naive one has no instant. Differences are integers of microseconds.
use Prim.Native.Nat.{ℕ, ◌*◌}
use Prim.Native.String.{String}
use mathlib.Core.Bool.{Bool, true, false}
use trade_bot.Prelude.Action.{Result, ok, err, value_error}

pub data Datetime : Type 0 where
  aware : ℕ → Datetime
  naive : ℕ → Datetime

abbrev pub is_aware : Datetime → Bool
is_aware (aware t) = true
is_aware (naive t) = false

-- `value.astimezone(UTC)`, or a ValueError for a naive value.
abbrev pub to_utc : Datetime → String → Result ℕ
to_utc (aware t) message = ok t
to_utc (naive t) message = err (value_error message)

abbrev pub seconds : ℕ → ℕ
seconds n = n * 1000000
