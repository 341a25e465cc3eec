-- ===== src/Generated.antt =====
-- The conversions between Rust messages and native ones that `generate_rust_msg` of
-- r2r_msg_gen/src/lib.rs writes for the members of a message, as what the written code computes,
-- and the strings and sequences of r2r_rcl/src/lib.rs that it uses.
pub mod Faithful
pub mod Lookup
pub mod Sequences
pub mod Fields
use r2r.Prelude.{
  ℕ, zero, suc, List, [], ◌∷◌, ◌++◌, Option, none, some, Bool, true, false, if◌then◌else◌, ◌==◌,
  ◌&&◌, leb, length, any, map,
}
use r2r.Prelude.Bytes.{Bytes}
use r2r.Errors.{Result, ok, panic, ◌>>=◌}

-- The texts of Rust, and their encodings: `as_bytes`, `str::from_utf8`, and `U16String::from_str` and
-- `to_string_lossy` of the widestring crate.
pub record Texts (Str : Type 0) : Type 0 where
  pub empty : Str
  pub as_bytes : Str → Bytes
  pub from_utf8 : Bytes → Option Str
  pub encode_wide : Str → List ℕ
  pub decode_wide : List ℕ → Str

-- The types of fields, as far as their conversion differs: `field_type` gives the strings, and
-- numbers and Booleans that are copied.
pub data Basic : Type 0 where
  number string wide_string : Basic

-- A member that is no array; one with a fixed size; a sequence; and one with an upper bound.
pub data Shape : Type 0 where
  single sequence : Shape
  fixed bounded : ℕ → Shape

-- `is_array_`, `array_size_` and `is_upper_bound_` of a member.
unfoldable pub shape_of : Bool → ℕ → Bool → Shape
shape_of false array_size upper_bound = single
shape_of true array_size true = bounded array_size
shape_of true zero false = sequence
shape_of true (suc n) false = fixed (suc n)

-- The members of a message; `placeholder` is `structure_needs_at_least_one_member`.
pub data Members : Type 0 where
  done : Members
  member : Shape → Basic → Members → Members
  nested : Shape → (message : Members) → Members → Members
  placeholder : Members → Members

-- A C array.
abbrev pub Array : ℕ → Type 0 → Type 0
Array zero A = Unit
Array (suc n) A = A × Array n A

abbrev pub RustShaped : Shape → Type 0 → Type 0
RustShaped single A = A
RustShaped sequence A = List A
RustShaped (fixed n) A = List A
RustShaped (bounded n) A = List A

abbrev pub NativeShaped : Shape → Type 0 → Type 0
NativeShaped single A = A
NativeShaped sequence A = List A
NativeShaped (fixed n) A = Array n A
NativeShaped (bounded n) A = List A

-- What a `rosidl_runtime_c__String` points to are its bytes and a NUL.
abbrev pub NativeBasic : Basic → Type 0
NativeBasic number = ℕ
NativeBasic string = Bytes
NativeBasic wide_string = List ℕ

abbrev pub RustBasic : Type 0 → Basic → Type 0
RustBasic Str number = ℕ
RustBasic Str string = Str
RustBasic Str wide_string = Str

-- The struct in Rust, and the C struct.
abbrev pub Rust : Type 0 → Members → Type 0
Rust Str done = Unit
Rust Str (member s b ms) = RustShaped s (RustBasic Str b) × Rust Str ms
Rust Str (nested s t ms) = RustShaped s (Rust Str t) × Rust Str ms
Rust Str (placeholder ms) = Rust Str ms

abbrev pub Native : Members → Type 0
Native done = Unit
Native (member s b ms) = NativeShaped s (NativeBasic b) × Native ms
Native (nested s t ms) = NativeShaped s (Native t) × Native ms
Native (placeholder ms) = ℕ × Native ms

-- `CStr::from_ptr(..)`: the bytes before the first NUL.
abbrev pub until_nul : Bytes → Bytes
until_nul [] = []
until_nul (c ∷ cs) = let rest = until_nul cs in if c == 0 then [] else c ∷ rest

module _ {Str : Type 0} (texts : Texts Str) where
  -- `rosidl_runtime_c__String::to_str`.
  unfoldable pub to_str : Bytes → Str
  to_str memory = elim (texts.from_utf8 (until_nul memory)) [ none ↦ texts.empty | some s ↦ s ]

  -- `rosidl_runtime_c__String::assign`: a text with a NUL is a panic.
  unfoldable pub assign : Str → Result Bytes
  unfolding any
  assign other =
      let q = texts.as_bytes other in if any (λ c. c == 0) q then panic else ok (q ++ 0 ∷ [])

  -- Writing a value of a basic type over one in native memory: `=` and `copy_from_slice`, and
  -- `assign` of the two kinds of strings.
  unfoldable pub copy_basic : (b : Basic) → RustBasic Str b → NativeBasic b → Result (NativeBasic b)
  unfolding assign
  copy_basic number v old = ok v
  copy_basic string v old = assign v
  copy_basic wide_string v old = ok (texts.encode_wide v)

  -- A value, or `to_str().to_owned()`.
  unfoldable pub read_basic : (b : Basic) → NativeBasic b → RustBasic Str b
  unfolding to_str
  read_basic number n = n
  read_basic string n = to_str n
  read_basic wide_string n = texts.decode_wide n

module _ {R N : Type 0} (copy : R → N → Result N) where
  -- `for (t, s) in msg.f.iter_mut().zip(&self.f)` over a C array.
  unfoldable pub copy_array : (n : ℕ) → List R → Array n N → Result (Array n N)
  copy_array zero ss ts = ok tt
  copy_array (suc n) [] ts = ok ts
  copy_array (suc n) (s ∷ ss) (t, ts) = do u ← copy s t; us ← copy_array n ss ts; ok (u, us)

  -- `update`, and the code for a sequence of messages: a new sequence of that length, whose elements
  -- are written one by one.
  unfoldable pub update : (init : N) → List R → Result (List N)
  update init [] = ok []
  update init (s ∷ ss) = do u ← copy s init; us ← update init ss; ok (u ∷ us)

  -- Writing a member. The length of a fixed array is asserted, and the upper bound of a sequence if
  -- it is `checked`.
  unfoldable pub copy_shaped :
      (checked : Bool) (init : N) (s : Shape)
      → RustShaped s R
      → NativeShaped s N
      → Result (NativeShaped s N)
  unfolding copy_array update
  copy_shaped checked init single v old = copy v old
  copy_shaped checked init sequence v old = update init v
  copy_shaped checked init (fixed n) v old = if length v == n then copy_array n v old else panic
  copy_shaped true init (bounded n) v old = if leb (length v) n then update init v else panic
  copy_shaped false init (bounded n) v old = update init v

module _ {R N : Type 0} (read : N → R) where
  unfoldable pub read_array : (n : ℕ) → Array n N → List R
  read_array zero ts = []
  read_array (suc n) (t, ts) = read t ∷ read_array n ts

  -- Reading a member: `to_vec()`, or a loop that pushes.
  unfoldable pub read_shaped : (s : Shape) → NativeShaped s N → RustShaped s R
  unfolding read_array
  read_shaped single n = read n
  read_shaped sequence ns = map read ns
  read_shaped (fixed k) ns = read_array k ns
  read_shaped (bounded k) ns = map read ns

module _ {Str : Type 0} (texts : Texts Str) (init_basic : (b : Basic) → NativeBasic b)
    (init : (ms : Members) → Native ms) where
  -- The generated `copy_to_native`; `init` are the values that the `__init` functions of C write.
  -- A sequence of messages has no assertion of its upper bound.
  unfoldable pub copy_to_native : (ms : Members) → Rust Str ms → Native ms → Result (Native ms)
  unfolding copy_shaped copy_basic
  copy_to_native done v old = ok tt
  copy_to_native (member s b ms) (v, vs) (old, olds) = do
    n ← copy_shaped (copy_basic texts b) true (init_basic b) s v old
    ns ← copy_to_native ms vs olds
    ok (n, ns)
  copy_to_native (nested s t ms) (v, vs) (old, olds) = do
    n ← copy_shaped (copy_to_native t) false (init t) s v old
    ns ← copy_to_native ms vs olds
    ok (n, ns)
  copy_to_native (placeholder ms) vs (old, olds) = do ns ← copy_to_native ms vs olds; ok (old, ns)

module _ {Str : Type 0} (texts : Texts Str) where
  -- The generated `from_native`.
  unfoldable pub from_native : (ms : Members) → Native ms → Rust Str ms
  unfolding read_shaped read_basic
  from_native done n = tt
  from_native (member s b ms) (n, ns) = (read_shaped (read_basic texts b) s n, from_native ms ns)
  from_native (nested s t ms) (n, ns) = (read_shaped (from_native t) s n, from_native ms ns)
  from_native (placeholder ms) (n, ns) = from_native ms ns
