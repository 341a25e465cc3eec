-- ===== src/MsgTypes.antt =====
-- src/msg_types.rs: messages in native memory, and their JSON view. `Native` is what a native
-- message's memory holds, `Json` a `serde_json::Value`; the generated types and serde are a record
-- of operations, `Typesupport`.
pub mod Actions
pub mod Views
use r2r.Prelude.{◌≡◌, Option, none, some}
use r2r.Errors.{Result, ok, err, panic, serde_error}
use Prim.Native.String.{String}

-- `std::result::Result<A, serde_json::Error>`, with the text of the error.
pub data Serde (A : Type 0) : Type 0 where
  parsed : A → Serde A
  malformed : String → Serde A

-- `WrappedTypesupport`, with the derived `Serialize` and `Deserialize`.
pub record Typesupport (Native Json T : Type 0) : Type 0 where
  pub create_msg : Native
  pub from_native : Native → T
  pub copy_to_native : T → Native → Native
  pub to_value : T → Serde Json
  pub from_value : Json → Serde T

-- What the generated code promises: a message that is copied to native memory is read from it.
abbrev pub IsFaithful : {Native Json T : Type 0} → Typesupport Native Json T → Type 0
IsFaithful {Native} {Json} {T} ts =
    (m : T) (native : Native) → ts.from_native (ts.copy_to_native m native) ≡ m

-- A value of a type, and the JSON that stands for it: serde writes it, and reads it back.
pub record Stands {Native Json T : Type 0} (ts : Typesupport Native Json T) (m : T) (json : Json)
    : Type 0 where
  pub written : ts.to_value m ≡ parsed json
  pub read : ts.from_value json ≡ parsed m

-- `map_err(|serde_err| Error::SerdeError { .. })`.
abbrev pub serde_result : {A : Type 0} → Serde A → Result A
serde_result (parsed a) = ok a
serde_result (malformed text) = err (serde_error text)

-- `expect(..)` on what serde returns.
abbrev pub expect_serde : {A : Type 0} → Serde A → Result A
expect_serde (parsed a) = ok a
expect_serde (malformed text) = panic

module _ {Native Json T : Type 0} (ts : Typesupport Native Json T) where
  -- `WrappedNativeMsg::from`: a new native message with the value copied to it.
  unfoldable pub native_from : T → Native
  native_from msg = ts.copy_to_native msg ts.create_msg

module _ (Native Json : Type 0) where
  -- `WrappedNativeMsgUntyped`, without the pointers to its type and to the function that frees it.
  pub record WrappedNativeMsgUntyped : Type 0 where
    pub msg : Native
    pub msg_to_json : Native → Serde Json
    pub msg_from_json : Native → Json → Serde Native

module _ {Native Json : Type 0} where
  -- `WrappedNativeMsgUntyped::new`.
  unfoldable pub new_untyped :
      {T : Type 0} → Typesupport Native Json T → WrappedNativeMsgUntyped Native Json
  new_untyped ts = record {
    msg = ts.create_msg;
    msg_to_json = λ native. ts.to_value (ts.from_native native);
    msg_from_json = λ native json. elim (ts.from_value json) [
      | parsed msg ↦ parsed (ts.copy_to_native msg native)
      | malformed text ↦ malformed text
    ];
  }

  -- `WrappedNativeMsgUntyped::to_json`.
  unfoldable pub to_json : WrappedNativeMsgUntyped Native Json → Result Json
  to_json w = serde_result (w.msg_to_json w.msg)

  -- `WrappedNativeMsgUntyped::from_json`: the message with the value written to it.
  unfoldable pub from_json :
      Json → WrappedNativeMsgUntyped Native Json → Result (WrappedNativeMsgUntyped Native Json)
  from_json json w = elim (w.msg_from_json w.msg json) [
    | parsed native ↦ ok (record w { msg = native })
    | malformed text ↦ err (serde_error text)
  ]
