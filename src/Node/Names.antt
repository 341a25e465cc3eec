-- ===== src/Node/Names.antt =====
-- What a node of src/nodes.rs reads from rcl: its names, and the topics that it sees. A C string is
-- `none` for a null pointer, and the inner `none` if it is not UTF-8.
use Prim.Native.String.{String}
use r2r.Prelude.{
  ℕ, zero, suc, ◌≡◌, refl, List, [], ◌∷◌, Option, none, some, Bool, true, false, ◌&&◌, leb,
  if◌then◌else◌, length, map, Bool-cases, inl, inr, arith,
}
use r2r.Prelude.Texts.{TextMap, insert_text, empty_texts}
use r2r.Prelude.Bytes.{take}
use r2r.Errors.{Ret, rcl_ret_node_invalid, rcl, Result, ok, err, is_ok}
use r2r.Parameters.{text_or_empty}

-- `Node::name`; `fully_qualified_name` and `namespace` are the same with another call.
unfoldable pub name : (cstr : Option (Option String)) → Result String
name none = err (rcl rcl_ret_node_invalid)
name (some s) = ok (text_or_empty s)

-- `Node::logger`.
unfoldable pub logger : (ptr : Option (Option String)) → String
logger none = ""
logger (some s) = text_or_empty s

-- `from_raw_parts(t, t.size)` of a pointer to one array of types, and the first text of each array of
-- the slice: it goes on with the arrays of the next topics. `none` is a read out of bounds.
unfoldable pub topic_types : (size : ℕ) → List (List String) → Option (List String)
topic_types zero ts = some []
topic_types (suc n) [] = none
topic_types (suc n) ([] ∷ ts) = none
topic_types (suc n) ((s ∷ ss) ∷ ts) =
    let rest = topic_types n ts in elim rest [ none ↦ none | some texts ↦ some (s ∷ texts) ]

-- The loop over the topics.
unfoldable pub topic_loop :
    (names : List String) (types : List (List String))
    → TextMap (List String)
    → Option (TextMap (List String))
unfolding topic_types
topic_loop [] types res = some res
topic_loop (n ∷ names) [] res = some res
topic_loop (n ∷ names) (t ∷ types) res = elim (topic_types (length t) (t ∷ types)) [
  | none ↦ none
  | some texts ↦ topic_loop names types (insert_text n texts res)
]

-- `Node::get_topic_names_and_types`, by what `rcl_get_topic_names_and_types` returns and writes.
unfoldable pub get_topic_names_and_types :
    Ret
    → (names : List String) (types : List (List String)) → Option (Result (TextMap (List String)))
unfolding topic_loop
get_topic_names_and_types ret names types =
    if is_ok ret
    then elim (topic_loop names types empty_texts) [ none ↦ none | some res ↦ some (ok res) ]
    else some (err (rcl ret))

-- What the map should be.
abbrev insert_all :
    (topics : List (String × List String)) → TextMap (List String) → TextMap (List String)
insert_all [] res = res
insert_all ((n, ts) ∷ topics) res = insert_all topics (insert_text n ts res)

-- A topic: its name, its first type, and more types.
abbrev pub Topic : Type 0
Topic = String × (String × List String)

abbrev pub types_of : Topic → List String
types_of (n, (t, more)) = t ∷ more

abbrev pub first_type : Topic → String
first_type (n, (t, more)) = t

-- No topic has more types than there are topics from it on.
abbrev pub in_bounds : List Topic → Bool
in_bounds [] = true
in_bounds ((n, (t, more)) ∷ topics) = leb (length more) (length topics) && in_bounds topics

-- What the code stores for the topics: as many types as the topic has, each the first one of the topic
-- itself or of one that follows.
abbrev pub store_topics : List Topic → TextMap (List String) → TextMap (List String)
store_topics [] res = res
store_topics ((n, (t, more)) ∷ topics) res =
    store_topics topics (insert_text n (t ∷ take (length more) (map first_type topics)) res)

topic_types_lem :
    (size : ℕ) (topics : List Topic)
    → topic_types size (map types_of topics)
      ≡ (if leb size (length topics) then some (take size (map first_type topics)) else none)
unfolding topic_types
topic_types_lem zero topics = let e : leb 0 (length topics) ≡ true = ground arith in rw e refl
topic_types_lem (suc size) [] = let e : leb (suc size) 0 ≡ false = ground arith in rw e refl
topic_types_lem (suc size) ((n, (t, more)) ∷ topics) =
    let ih = topic_types_lem size topics in
    elim (Bool-cases (leb size (length topics))) [
      | inl e ↦
          let f : leb (suc size) (suc (length topics)) ≡ true = ground (arith, e) in
          rw (topic_types, rw e at ih, f) refl
      | inr e ↦
          let f : leb (suc size) (suc (length topics)) ≡ false = ground (arith, e) in
          rw (topic_types, rw e at ih, f) refl
    ]

topic_loop_lem :
    (topics : List Topic) (res : TextMap (List String))
    → topic_loop (map (λ t. t.0) topics) (map types_of topics) res
      ≡ (if in_bounds topics then some (store_topics topics res) else none)
unfolding topic_loop topic_types
topic_loop_lem [] res = refl
topic_loop_lem ((n, (t, more)) ∷ topics) res =
    let row = topic_types_lem (length more) topics in
    elim (Bool-cases (leb (length more) (length topics))) [
      | inl e ↦
          rw (topic_loop, topic_types, rw e at row, e)
            (topic_loop_lem topics
              (insert_text n (t ∷ take (length more) (map first_type topics)) res))
      | inr e ↦ rw (topic_loop, topic_types, rw e at row, e) refl
    ]

-- With a type for each topic, the map has, for a topic, as many types as it has, but the first types
-- of it and of the topics that follow; the code reads out of bounds if and only if some topic has
-- more types than there are topics from it on. An error of rcl is returned.
pub get_topic_names_and_types_lem :
    (ret : Ret) (topics : List Topic)
    → get_topic_names_and_types ret (map (λ t. t.0) topics) (map types_of topics) ≡ (
        if is_ok ret
        then (if in_bounds topics then some (ok (store_topics topics empty_texts)) else none)
        else some (err (rcl ret)))
unfolding get_topic_names_and_types
get_topic_names_and_types_lem ret topics =
    let loop = topic_loop_lem topics empty_texts in
    elim (Bool-cases (is_ok ret)) [
      | inr e ↦ rw (get_topic_names_and_types, e) refl
      | inl e ↦ elim (Bool-cases (in_bounds topics)) [
        | inl f ↦ rw (get_topic_names_and_types, e, rw f at loop, f) refl
        | inr f ↦ rw (get_topic_names_and_types, e, rw f at loop, f) refl
      ]
    ]
