-- ===== src/Generated/Fields.antt =====
-- `field_type` and `field_name` of r2r_msg_gen/src/lib.rs: the Rust type and the Rust name of a member.
use Prim.Native.String.{String}
use r2r.Prelude.{
  ℕ, ◌≡◌, List, [], ◌∷◌, Option, none, some, ◌==◌, ==_iff, if◌then◌else◌, Bool-cases, inl, inr,
}
use r2r.Prelude.Texts.{same_text}
use r2r.Errors.{Result, ok, panic}
use r2r.Generated.{Basic, number, string, wide_string}

-- The type ids of rosidl, in the order in which they are tested; `ids` are their numbers.
pub data RosType : Type 0 where
  ros_string ros_wstring ros_boolean ros_char ros_wchar ros_octet ros_uint8 ros_int8 ros_uint16 :
      RosType
  ros_int16 ros_uint32 ros_int32 ros_uint64 ros_int64 ros_float ros_double ros_long_double
        ros_message :
      RosType

unfoldable pub type_arms : List RosType
type_arms =
    ros_string ∷ ros_wstring ∷ ros_boolean ∷ ros_char ∷ ros_wchar ∷ ros_octet ∷ ros_uint8 ∷ ros_int8
    ∷ ros_uint16 ∷ ros_int16 ∷ ros_uint32 ∷ ros_int32 ∷ ros_uint64 ∷ ros_int64 ∷ ros_float
    ∷ ros_double ∷ ros_long_double ∷ ros_message ∷ []

unfoldable pub rust_type : RosType → String
rust_type ros_string = "std::string::String"
rust_type ros_wstring = "std::string::String"
rust_type ros_boolean = "bool"
rust_type ros_char = "i8"
rust_type ros_wchar = "u16"
rust_type ros_octet = "u8"
rust_type ros_uint8 = "u8"
rust_type ros_int8 = "i8"
rust_type ros_uint16 = "u16"
rust_type ros_int16 = "i16"
rust_type ros_uint32 = "u32"
rust_type ros_int32 = "i32"
rust_type ros_uint64 = "u64"
rust_type ros_int64 = "i64"
rust_type ros_float = "f32"
rust_type ros_double = "f64"
rust_type ros_long_double = "u128"
rust_type ros_message = "message"

unfoldable pub type_chain : (RosType → ℕ) → List RosType → ℕ → Result String
unfolding rust_type
type_chain ids [] t = panic
type_chain ids (r ∷ rs) t =
    let rest = type_chain ids rs t in if t == ids r then ok (rust_type r) else rest

-- `field_type`; an unknown id is a panic.
unfoldable pub field_type : (RosType → ℕ) → ℕ → Result String
unfolding type_chain type_arms
field_type ids t = type_chain ids type_arms t

-- `field_name`.
unfoldable pub field_name : String → String
field_name name = if same_text name "type" then "type_" else name

-- The conversion of a type: strings of two kinds, and numbers; messages have their own.
unfoldable pub basic_of : RosType → Option Basic
basic_of ros_string = some string
basic_of ros_wstring = some wide_string
basic_of ros_message = none
basic_of _ = some number

chain_type :
    (ids : RosType → ℕ) (rs : List RosType) (t : ℕ) (s : String)
    → type_chain ids rs t ≡ ok s
    → (r : RosType) × ((t ≡ ids r) × (rust_type r ≡ s))
unfolding type_chain
chain_type ids [] t s e = cc
chain_type ids (r ∷ rs) t s e = elim (Bool-cases (t == ids r)) [
  | inl hit ↦ (r, ((==_iff t (ids r)).0 hit, cc (rw hit at e)))
  | inr miss ↦ chain_type ids rs t s (rw miss at e)
]

-- A type that is given to a member is the Rust type of a type of rosidl with the member's id.
field_type_lem :
    (ids : RosType → ℕ) (t : ℕ) (s : String)
    → field_type ids t ≡ ok s
    → (r : RosType) × ((t ≡ ids r) × (rust_type r ≡ s))
unfolding field_type
field_type_lem ids t s e = chain_type ids type_arms t s e
