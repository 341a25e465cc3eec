-- ===== src/Memory.antt =====
-- src/msg_types.rs: `WrappedNativeMsg` as a pointer to native memory, with the C functions
-- `__create` and `__destroy` and Rust's scopes, at whose end a wrapped message is dropped.
pub mod Scopes
pub mod Owned
pub mod Answered
pub mod Histories
pub mod Results
use r2r.Prelude.{ℕ, suc, Option, none, some}
use r2r.Prelude.Maps.{HashMap, insert, remove}
use r2r.MsgTypes.{Typesupport}

-- Native memory: what the message at an address holds, if one is allocated there, and the next
-- address that is given out. An address is not given out twice.
pub record Heap (N : Type 0) : Type 0 where
  pub next : ℕ
  pub cells : HashMap N

-- A run; `fault` is undefined behaviour: the use of an address where no message is.
pub data Ran (A : Type 0) : Type 0 where
  ran : A → Ran A
  fault : Ran A

abbrev pub Cmd : Type 0 → Type 0 → Type 0
Cmd N A = Heap N → Ran (A × Heap N)

module _ {N : Type 0} where
  abbrev pub pure : {A : Type 0} → A → Cmd N A
  pure a = λ h. ran (a, h)

  infixl 5 ◌>>=◌
  infixl 5 ◌>>◌
  unfoldable pub ◌>>=◌ : {A B : Type 0} → Cmd N A → (A → Cmd N B) → Cmd N B
  c >>= f = λ h. elim (c h) [ fault ↦ fault | ran (a, later) ↦ f a later ]

  unfoldable pub ◌>>◌ : {A B : Type 0} → Cmd N A → Cmd N B → Cmd N B
  unfolding ◌>>=◌
  c >> d = c >>= (λ a. d)

  -- `__create` of a message with the content.
  unfoldable pub create : N → Cmd N ℕ
  create n = λ h. ran (h.next, record h { next = suc h.next; cells = insert h.next n h.cells })

  -- `__destroy`.
  unfoldable pub destroy : ℕ → Cmd N (Unit {0})
  destroy p = λ h. elim (h.cells p) [
    | none ↦ fault
    | some n ↦ ran (tt, record h { cells = remove p h.cells })
  ]

  -- A read and a write through a pointer.
  unfoldable pub load : ℕ → Cmd N N
  load p = λ h. elim (h.cells p) [ none ↦ fault | some n ↦ ran (n, h) ]

  unfoldable pub store : ℕ → N → Cmd N (Unit {0})
  store p n = λ h. elim (h.cells p) [
    | none ↦ fault
    | some old ↦ ran (tt, record h { cells = insert p n h.cells })
  ]

-- `WrappedNativeMsg<T>`; `void_ptr` and `void_ptr_mut` give the pointer.
pub record WrappedNativeMsg : Type 0 where
  pub msg : ℕ

module _ {N Json T : Type 0} (ts : Typesupport N Json T) where
  -- `WrappedNativeMsg::new`.
  unfoldable pub new : Cmd N WrappedNativeMsg
  unfolding create ◌>>=◌
  new = do p ← create ts.create_msg; pure (record { msg = p })

  -- `WrappedNativeMsg::from`.
  unfoldable pub from : T → Cmd N WrappedNativeMsg
  unfolding new load store ◌>>=◌ ◌>>◌
  from value = do
    native_msg ← new
    native ← load native_msg.msg
    store native_msg.msg (ts.copy_to_native value native)
    pure native_msg

-- `Drop::drop` of `WrappedNativeMsg`.
unfoldable pub drop_msg : {N : Type 0} → WrappedNativeMsg → Cmd N (Unit {0})
unfolding destroy
drop_msg w = destroy w.msg

-- A scope that owns a wrapped message: the message is dropped where the scope ends, also by a
-- `return`.
unfoldable pub scoped :
    {N A : Type 0} → Cmd N WrappedNativeMsg → (WrappedNativeMsg → Cmd N A) → Cmd N A
unfolding drop_msg ◌>>=◌ ◌>>◌
scoped make body = do w ← make; r ← body w; drop_msg w; pure r

-- `Default::default` of a generated message type.
unfoldable pub default_msg : {N Json T : Type 0} → Typesupport N Json T → Cmd N T
unfolding scoped new load ◌>>=◌
default_msg ts =
    scoped (new ts) (λ msg_native. do native ← load msg_native.msg; pure (ts.from_native native))
