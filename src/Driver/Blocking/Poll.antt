-- ===== src/Driver/Blocking/Poll.antt =====
-- When pollRegWithIT returns, and with what.
use wiznet_driver.Base.{ℕ, zero, suc, ◌+◌, ◌≡◌, ◌<◌, ◌≤◌, ◌⊎◌, refl, arith}
use wiznet_driver.Base.{Bool, true, false, not, ◌==◌}
use mathlib.Core.Bool.{xor}
use wiznet_driver.Memory.{Pointer}
use wiznet_driver.Net.{SockResult, sock_ok, sockerr_timeout}
use wiznet_driver.Driver.{World, Hal}
use wiznet_driver.Driver.Blocking.{Os, sub32, waits, value_at}
use wiznet_driver.Driver.Blocking.{poll_with_it_loop, poll_reg_with_it}

-- Each delay lets the clock go on, as seen from the start, while the time is not over.
abbrev pub DelayPasses : Os → ℕ → ℕ → Type 0
DelayPasses os start timeout =
    (v : World)
    → sub32 (os.tick v) start < timeout
    → sub32 (os.tick v) start < sub32 (os.tick (os.delay 100 v)) start

-- The end of a poll: the register has the value that was waited for, or the time is over.
abbrev pub IsPolled : Os → Pointer → ℕ → Bool → ℕ → ℕ → SockResult × World → Type 0
IsPolled os reg val inv timeout start r =
    ((r.0 ≡ sock_ok) × (waits reg val inv r.1 ≡ false))
    ⊎ ((r.0 ≡ sockerr_timeout)
        × (waits reg val inv r.1 ≡ true)
        × (timeout ≤ sub32 (os.tick r.1) start))

xor-not : (a inv : Bool) → xor (not a) inv ≡ not (xor a inv)
unfolding xor
xor-not true true = refl
xor-not true false = refl
xor-not false true = refl
xor-not false false = refl

poll_with_it_loop-IsPolled :
    (hal : Hal) (os : Os) (reg : Pointer) (val : ℕ) (inv : Bool) (timeout start fuel : ℕ)
    (w : World)
    → DelayPasses os start timeout
    → timeout ≤ fuel + sub32 (os.tick w) start
    → IsPolled os reg val inv timeout start
        (poll_with_it_loop hal os reg val inv timeout start fuel w)
unfolding poll_with_it_loop
poll_with_it_loop-IsPolled hal os reg val inv timeout start zero w passes enough =
    ground (arith, xor-not (value_at reg w == val) inv)
poll_with_it_loop-IsPolled hal os reg val inv timeout start (suc fuel) w passes enough = ground (
  arith,
  xor-not (value_at reg w == val) inv,
  passes w,
  poll_with_it_loop-IsPolled hal os reg val inv timeout start fuel (os.delay 100 w) passes,
)

-- pollRegWithIT returns on every clock that goes on during a delay: with SOCK_OK when the register
-- has the value (or with `inv` another one), or with SOCKERR_TIMEOUT when it has not and 60 seconds
-- are over.
pub poll_reg_with_it-IsPolled :
    (hal : Hal) (os : Os) (reg : Pointer) (val : ℕ) (inv : Bool) (w : World)
    → DelayPasses os (os.tick w) 60000
    → IsPolled os reg val inv 60000 (os.tick w) (poll_reg_with_it hal os reg val inv w)
unfolding poll_reg_with_it
poll_reg_with_it-IsPolled hal os reg val inv w passes =
    poll_with_it_loop-IsPolled hal os reg val inv 60000 (os.tick w) 60000 w passes (omega arith)
