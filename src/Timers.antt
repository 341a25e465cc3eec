-- ===== src/Timers.antt =====
-- src/nodes.rs: what `Timer_` does when its timer woke the node, and `Timer`.
use r2r.Prelude.{ℕ, List, ◌∷◌, Option, none, some, Bool, true, false, if◌then◌else◌}
use r2r.Errors.{Ret, rcl_ret_timer_invalid, is_ok, rcl, Result, ok, err}
use r2r.Services.{TrySend, sent, full, disconnected}

pub data Call : Type 0 where
  timer_is_ready time_since_last_call timer_call : Call
  -- `try_send` on the stream of the timer, with nanoseconds
  offer_tick : ℕ → Call

pub record Env : Type 0 where
  pub ret : List Call → Call → Ret
  pub is_ready : List Call → Bool
  -- the nanoseconds, as an `i64` that is not negative
  pub nanos : List Call → ℕ
  pub attempt : List Call → Call → TrySend

-- The innermost part of `Timer_::handle_incoming`.
unfoldable pub tick : Env → (nanos : ℕ) → List Call → Bool × List Call
tick env nanos calls = elim (env.attempt calls (offer_tick nanos)) [
  | disconnected ↦ (true, offer_tick nanos ∷ calls)
  | full ↦ (false, offer_tick nanos ∷ calls)
  | sent ↦ (false, offer_tick nanos ∷ calls)
]

-- `Timer_::handle_incoming`: whether the stream was dropped.
unfoldable pub handle_incoming : Env → List Call → Bool × List Call
unfolding tick
handle_incoming env calls =
    let asked = timer_is_ready ∷ calls in
    let timed = time_since_last_call ∷ asked in
    let nanos = env.nanos asked in
    if is_ok (env.ret calls timer_is_ready)
    then (if env.is_ready calls
        then (if is_ok (env.ret asked time_since_last_call)
            then (if is_ok (env.ret timed timer_call)
                then tick env nanos (timer_call ∷ timed)
                else (false, timer_call ∷ timed))
            else (false, timed))
        else (false, asked))
    else (false, asked)

-- `Timer::tick`, once the stream gave a tick, or ended.
unfoldable pub await_tick : Option ℕ → Result ℕ
await_tick (some elapsed) = ok elapsed
await_tick none = err (rcl rcl_ret_timer_invalid)
