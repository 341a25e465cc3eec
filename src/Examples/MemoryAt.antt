-- ===== src/Examples/MemoryAt.antt =====
-- Native messages, in src/msg_types.rs and src/action_servers.rs: messages of numbers, where a
-- request holds the goal that it asks for.
use r2r.Prelude.{
  ℕ, ◌≡◌, refl, List, [], ◌∷◌, none, some, true, false, Bool-cases, inl, inr, ◌==◌, arith,
}
use r2r.Prelude.Maps.{insert, empty}
use r2r.MsgTypes.{Typesupport, parsed}
use r2r.Memory.{Heap, ran, fault}
use r2r.Memory.Scopes.{Runs, Same}
use r2r.Memory.Results.{Types, Rcl, Server, handle_result_request}
use r2r.Memory.Owned.{IsOwned}
use r2r.Memory.Answered.{request_lem, unknown_request_lem}
use r2r.Memory.Histories.{Op, request, result, new_server, new_heap, lifetime, lifetime_lem}

abbrev numbers : Typesupport ℕ ℕ ℕ
numbers = record {
  create_msg = 0;
  from_native = λ n. n;
  copy_to_native = λ n m. n;
  to_value = λ n. parsed n;
  from_value = λ n. parsed n;
}

abbrev types : Types ℕ ℕ ℕ ℕ ℕ
types = record {
  request = numbers;
  info = numbers;
  response = numbers;
  destructure_result_request_msg = λ n. n;
  info_of = λ n. n;
  unknown_response = 0;
}

-- Request 7 for goal 5.
abbrev asked : Rcl ℕ
asked = record { taken = some (7, 5); goal_exists = λ n. true }

abbrev asked_unknown : Rcl ℕ
asked_unknown = record { taken = some (7, 5); goal_exists = λ n. false }

unknown_request_lem_example : handle_result_request types asked_unknown new_server new_heap ≡ fault
unknown_request_lem_example =
    unknown_request_lem types asked_unknown 7 5 new_server new_heap (λ q le. refl) refl refl

abbrev ops : List (Op ℕ ℕ)
ops = request asked ∷ result 5 40 ∷ request asked ∷ result 5 41 ∷ []

lifetime_lem_example :
    (end : Heap ℕ) × ((lifetime types ops new_heap ≡ ran (tt, end))
      × ((p : ℕ) → end.cells p ≡ none))
lifetime_lem_example = lifetime_lem types ops (refl, (tt, (refl, (tt, tt))))

-- The memory with the result 40 of goal 5.
abbrev one_result : Server ℕ
one_result = record new_server { result_msgs = (5, record { msg = 0 }) ∷ [] }

abbrev one_cell : Heap ℕ
one_cell = record { next = 1; cells = insert 0 40 empty }

one_result-IsOwned : IsOwned one_cell one_result.result_msgs
one_result-IsOwned = (
  λ p. elim (Bool-cases (0 == p)) [ inl e ↦ rw e refl | inr e ↦ rw e refl ],
  λ q le. let e : (0 == q) ≡ false = ground (arith, le) in rw e refl,
)

request_lem_example :
    Runs
      (handle_result_request types asked one_result)
      one_cell
      (λ after later. (after ≡ record one_result { sent = (7, 40) ∷ [] }) × Same one_cell later)
request_lem_example = request_lem types asked 7 5 one_result one_cell one_result-IsOwned refl refl
