-- ===== src/Polling.antt =====
-- `poll_available` of src/clients.rs, src/action_clients.rs and src/action_clients_untyped.rs, which
-- all treat the senders that wait for the other side to become available alike.
pub mod Outcomes
use r2r.Prelude.{ℕ, zero, suc, List, [], ◌∷◌, Option, none, some, Bool, true, false, pop, length}
use r2r.Errors.{Error, Result, ok, err, panic}

-- A channel of the futures crate, `oneshot` or `mpsc`, by the order of creation.
abbrev pub Channel : Type 0
Channel = ℕ

-- `notify ch` is the call `sender.send(())`, `drop ch` a sender that goes out of scope unused.
module _ {C : Type 0} (notify drop : Channel → C) where
  -- `while let Some(sender) = channels.pop() { sender.send(()) }`, on fuel: the channels left, and
  -- the calls.
  unfoldable pub notify_all : ℕ → List Channel → List C → List Channel × List C
  unfolding pop
  notify_all zero channels calls = (channels, calls)
  notify_all (suc fuel) channels calls = elim (pop channels) [
    | none ↦ (channels, calls)
    | some (sender, rest) ↦ notify_all fuel rest (notify sender ∷ calls)
  ]

  -- `channels.clear()`.
  unfoldable pub drop_all : List Channel → List C → List C
  drop_all [] calls = calls
  drop_all (ch ∷ chs) calls = drop_all chs (drop ch ∷ calls)

  -- The match on whether the other side is available.
  unfoldable pub poll_channels : Result Bool → List Channel → List C → List Channel × List C
  unfolding notify_all drop_all
  poll_channels (ok true) channels calls = notify_all (suc (length channels)) channels calls
  poll_channels (ok false) channels calls = (channels, calls)
  poll_channels (err e) channels calls = ([], drop_all channels calls)
  poll_channels panic channels calls = (channels, calls)
