-- ===== src/Subscribers.antt =====
-- src/subscribers.rs: what a subscriber does when a message waits, over the calls `C` that it makes
-- of rcl and of its stream.
use r2r.Prelude.{List, ◌∷◌, Bool, true, false, if◌then◌else◌}
use r2r.Errors.{Ret, is_ok, Result, ok, panic}
use r2r.Services.{TrySend, sent, full, disconnected}

module _ {C Message : Type 0} (ret : List C → C → Ret) (attempt : List C → C → TrySend) where
  -- `TypedSubscriber::handle_incoming` and `NativeSubscriber::handle_incoming`: whether the stream
  -- was dropped. `taken` is the message that the call `take` writes.
  unfoldable pub handle_incoming :
      (take : C) (taken : List C → Message) (offer : Message → C) → List C → Bool × List C
  handle_incoming take taken offer calls =
      let msg = offer (taken calls) in
      let attempted = msg ∷ take ∷ calls in
      if is_ok (ret calls take)
      then elim (attempt (take ∷ calls) msg) [
        | disconnected ↦ (true, attempted)
        | full ↦ (false, attempted)
        | sent ↦ (false, attempted)
      ]
      else (false, take ∷ calls)

  -- `UntypedSubscriber::handle_incoming`; it panics without a type support for its topic's type.
  unfoldable pub untyped_handle_incoming :
      (supported : Bool) (take : C) (taken : List C → Message) (offer : Message → C)
      → List C
      → Result (Bool × List C)
  unfolding handle_incoming
  untyped_handle_incoming true take taken offer calls = ok (handle_incoming take taken offer calls)
  untyped_handle_incoming false take taken offer calls = panic
