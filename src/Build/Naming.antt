-- ===== src/Build/Naming.antt =====
-- `generate_rust_msg` of r2r_msg_gen/src/lib.rs as far as the name of the Rust struct goes: the
-- table is asked, the C library describes the type, and the name is cut. The C functions are an
-- argument. The members of the struct are in Generated.
use r2r.Prelude.{
  ℕ, zero, suc, List, [], ◌∷◌, none, some, Bool, true, false, ◌&&◌, ◌||◌, ◌==◌, if◌then◌else◌,
}
use r2r.Prelude.Bytes.{Bytes, bytes, same_bytes, take}
use r2r.Errors.{Result, ok, panic, ◌>>=◌}
use r2r.Common.{BytesMap}
use r2r.Build.Keys.{key}

-- The character becomes the first one of the first piece.
abbrev pub push_front : ℕ → List Bytes → List Bytes
push_front c [] = (c ∷ []) ∷ []
push_front c (w ∷ ws) = (c ∷ w) ∷ ws

-- `l.split("__")`; `seen` if the last character was an underscore that may begin a separator.
unfoldable pub split_from : (seen : Bool) → Bytes → List Bytes
split_from false [] = [] ∷ []
split_from true [] = (b'_' ∷ []) ∷ []
split_from false (c ∷ l) = elim (c == b'_') [
  | true ↦ split_from true l
  | false ↦ push_front c (split_from false l)
]
split_from true (c ∷ l) = elim (c == b'_') [
  | true ↦ [] ∷ split_from false l
  | false ↦ push_front b'_' (push_front c (split_from false l))
]

-- `l.splitn(n, c)`.
unfoldable pub splitn : (n c : ℕ) → Bytes → List Bytes
splitn zero c l = []
splitn (suc zero) c l = l ∷ []
splitn (suc (suc n)) c [] = [] ∷ []
splitn (suc (suc n)) c (x ∷ l) = elim (x == c) [
  | true ↦ [] ∷ splitn (suc n) c l
  | false ↦ push_front x (splitn (suc (suc n)) c l)
]

-- The generated C functions: what a symbol returns, and the namespace and the name of the type
-- that it describes.
pub record Library (H : Type 0) : Type 0 where
  pub call : (symbol : Bytes) → H
  pub message_namespace : H → Bytes
  pub message_name : H → Bytes

-- `introspection`, without the members: package, prefix, name and C struct.
unfoldable pub introspection : {H : Type 0} → Library H → H → Result (Bytes × Bytes × Bytes × Bytes)
unfolding split_from
introspection lib ptr =
    let name = lib.message_name ptr in
    elim (take 2 (split_from false (lib.message_namespace ptr))) [
      | m ∷ p ∷ [] ↦ ok (m, p, name, key m p name)
      | _ ↦ panic
    ]

-- The last part of the name of a part of a service or an action.
unfoldable pub last_part : Bytes → Result Bytes
unfolding splitn
last_part name = elim (splitn 3 b'_' name) [
  | _ ∷ _ ∷ msg_name ∷ [] ↦ ok msg_name
  | _ ∷ msg_name ∷ [] ↦ ok msg_name
  | _ ↦ panic
]

-- The name of the struct that `generate_rust_msg` writes.
unfoldable pub struct_name :
    {H : Type 0} → Library H → BytesMap Bytes → (module_name prefix name : Bytes) → Result Bytes
unfolding introspection last_part
struct_name lib fns m_ p_ n_ = elim (fns (key m_ p_ n_)) [
  | none ↦ panic
  | some symbol ↦ do
    (m, p, n, c_struct) ← introspection lib (lib.call symbol)
    if same_bytes m m_ && (same_bytes p p_ && same_bytes n n_)
        then (if same_bytes p (bytes "srv") || same_bytes p (bytes "action")
            then last_part n
            else ok n)
        else panic
]
