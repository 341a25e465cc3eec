-- ===== src/Examples/GeneratedAt.antt =====
-- The generated conversions of r2r_msg_gen/src/lib.rs for a message with a pair of numbers, at most
-- three names, and points that are messages; and the lookup of two types by name.
use r2r.Prelude.{ℕ, zero, suc, ◌≡◌, refl, [], ◌∷◌, ◌++◌, some, true, false, any, ◌⊎◌, ◌↔◌}
use r2r.Prelude.Bytes.{Bytes, bytes}
use r2r.Errors.{ok, panic}
use r2r.Common.{RosMsg}
use r2r.Common.Parsing.{full_name}
use r2r.Common.Sorting.{Has}
use r2r.Generated.{
  Texts, Basic, number, string, wide_string, single, sequence, fixed, bounded, Members, done,
  member, nested, placeholder, NativeBasic, Native, Rust, Shape, NativeShaped, Array,
  copy_to_native, from_native, assign, to_str,
}
use r2r.Generated.Faithful.{fits, from_native-copy_to_native}
use r2r.Generated.Sequences.{Sequence, update_strings, to_vec, to_vec-update_strings}
use r2r.Generated.Lookup.{
  new_from, new_service_from, new_action_from, is_message, is_service, is_action, new_from_iff,
}

abbrev texts : Texts Bytes
texts = record {
  empty = [];
  as_bytes = λ s. s;
  from_utf8 = λ s. some s;
  encode_wide = λ s. s;
  decode_wide = λ s. s;
}

abbrev init_basic : (b : Basic) → NativeBasic b
init_basic number = 0
init_basic string = 0 ∷ []
init_basic wide_string = []

abbrev init_array : {A : Type 0} (n : ℕ) → A → Array n A
init_array zero a = tt
init_array (suc n) a = (a, init_array n a)

abbrev init_shaped : {A : Type 0} (s : Shape) → A → NativeShaped s A
init_shaped single a = a
init_shaped sequence a = []
init_shaped (fixed n) a = init_array n a
init_shaped (bounded n) a = []

abbrev init : (ms : Members) → Native ms
init done = tt
init (member s b ms) = (init_shaped s (init_basic b), init ms)
init (nested s t ms) = (init_shaped s (init t), init ms)
init (placeholder ms) = (0, init ms)

abbrev point : Members
point = member single number (member single string done)

abbrev path : Members
path = member (fixed 2) number (member (bounded 3) string (nested (bounded 1) point done))

abbrev message : Rust Bytes path
message = (
  4 ∷ 5 ∷ [],
  (bytes "a" ∷ bytes "b" ∷ [], ((1, (bytes "x", tt)) ∷ (2, (bytes "y", tt)) ∷ [], tt)),
)

from_native-copy_to_native_example :
    (fits texts path message ≡ true
      → (n : Native path) × ((copy_to_native texts init_basic init path message (init path) ≡ ok n)
          × (from_native texts path n ≡ message)))
    × (fits texts path message ≡ false
        → copy_to_native texts init_basic init path message (init path) ≡ panic)
from_native-copy_to_native_example =
    from_native-copy_to_native texts init_basic init (record { utf8 = λ s. refl; wide = λ s. refl })
      path message (init path)

-- Two points, although the bound is one: they are copied.
too_many_points : fits texts path message ≡ true
unfolding any
too_many_points = refl

abbrev bool_msg : RosMsg
bool_msg = record { module_name = bytes "std_msgs"; prefix = bytes "msg"; name = bytes "Bool" }

abbrev plan_srv : RosMsg
plan_srv = record { module_name = bytes "nav"; prefix = bytes "srv"; name = bytes "Plan" }

new_from_iff_example :
    let msgs = bool_msg ∷ plan_srv ∷ [] in
    ((new_from msgs (full_name plan_srv) ≡ some plan_srv)
      ↔ (Has (λ x. x ≡ plan_srv) msgs × (is_message plan_srv ≡ true)))
    × (((new_service_from msgs (full_name plan_srv) ≡ some plan_srv)
          ↔ (Has (λ x. x ≡ plan_srv) msgs × (is_service plan_srv ≡ true)))
        × (((new_action_from msgs (full_name plan_srv) ≡ some plan_srv)
              ↔ (Has (λ x. x ≡ plan_srv) msgs × (is_action plan_srv ≡ true)))
            × ((typename : Bytes)
                → ((new_from msgs typename ≡ some plan_srv)
                    ⊎ ((new_service_from msgs typename ≡ some plan_srv)
                        ⊎ (new_action_from msgs typename ≡ some plan_srv)))
                → typename ≡ full_name plan_srv)))
unfolding any
new_from_iff_example =
    new_from_iff (bool_msg ∷ plan_srv ∷ []) plan_srv
      ((refl, (refl, refl)), ((refl, (refl, refl)), tt)) (refl, (refl, refl))

abbrev old_names : Sequence Bytes
old_names = record { elements = bytes "x" ∷ bytes "y" ∷ bytes "z" ∷ []; size = 3 }

to_vec-update_strings_example :
    (later : Sequence Bytes) × ((update_strings
          (λ v old. assign texts v)
          []
          (bytes "a" ∷ bytes "b" ∷ [])
          old_names
        ≡ ok later)
      × (to_vec (to_str texts) later ≡ some (bytes "a" ∷ bytes "b" ∷ [])))
unfolding assign to_str any
to_vec-update_strings_example =
    to_vec-update_strings (λ v old. assign texts v) [] (to_str texts) (bytes "a" ∷ bytes "b" ∷ [])
      old_names ((bytes "a" ++ 0 ∷ [], (refl, refl)), ((bytes "b" ++ 0 ∷ [], (refl, refl)), tt))
