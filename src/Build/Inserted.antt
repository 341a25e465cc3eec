-- ===== src/Build/Inserted.antt =====
-- The table `INTROSPECTION_FNS` that r2r_msg_gen/build.rs writes against the messages that it is
-- written for.
use mathlib.Core.Logic.{◌↔◌}
use r2r.Prelude.{
  ◌≡◌, refl, ap, sym, ◌∙◌, List, [], ◌∷◌, ◌++◌, none, some, map, if◌then◌else◌, arith, Bool-cases,
  inl, inr, ◌⊎◌, All,
}
use r2r.Prelude.Bytes.{Bytes, bytes, same_bytes, same_bytes_sound, same_bytes_refl}
use r2r.Common.{RosMsg, BytesMap}
use r2r.Common.Sorting.{Has, Has-append}
use r2r.Build.Keys.{
  key, part, Insert, insert_of, inserts, all_inserts, insert_all, introspection_fns,
}

-- The names of the message types that a message, a service or an action stands for.
abbrev pub type_names : RosMsg → List Bytes
type_names msg =
    if same_bytes msg.prefix (bytes "srv")
    then part msg.name (bytes "Request") ∷ part msg.name (bytes "Response") ∷ []
    else if same_bytes msg.prefix (bytes "action")
    then part msg.name (bytes "Goal")
      ∷ part msg.name (bytes "Result")
      ∷ part msg.name (bytes "Feedback")
      ∷ part msg.name (bytes "FeedbackMessage")
      ∷ part (part msg.name (bytes "SendGoal")) (bytes "Request")
      ∷ part (part msg.name (bytes "SendGoal")) (bytes "Response")
      ∷ part (part msg.name (bytes "GetResult")) (bytes "Request")
      ∷ part (part msg.name (bytes "GetResult")) (bytes "Response")
      ∷ []
    else msg.name ∷ []

-- The function of the C library for a key.
abbrev pub symbol_of : Bytes → Bytes
symbol_of k = bytes "rosidl_typesupport_introspection_c__get_message_type_support_handle__" ++ k

-- Some type of the message has the key.
abbrev pub HasKey : Bytes → RosMsg → Type 0
HasKey k msg = Has (λ n. key msg.module_name msg.prefix n ≡ k) (type_names msg)

inserts_lem :
    (msg : RosMsg) → inserts msg ≡ map (insert_of msg.module_name msg.prefix) (type_names msg)
unfolding inserts
inserts_lem msg = elim (Bool-cases (same_bytes msg.prefix (bytes "srv"))) [
  | inl e ↦ rw (inserts, e) refl
  | inr e ↦ elim (Bool-cases (same_bytes msg.prefix (bytes "action"))) [
    | inl h ↦ rw (inserts, e, h) refl
    | inr h ↦ rw (inserts, e, h) refl
  ]
]

-- The value of a line is called by its key.
abbrev IsNamed : Insert → Type 0
IsNamed i = i.symbol ≡ symbol_of i.key_text

inserted :
    (is : List Insert) (t : BytesMap Bytes) (k : Bytes)
    → All IsNamed is
    → Has (λ i. i.key_text ≡ k) is ⊎ (t k ≡ some (symbol_of k))
    → insert_all is t k ≡ some (symbol_of k)
unfolding insert_all
inserted [] t k a (inl h) = absurd h
inserted [] t k a (inr e) = e
inserted (i ∷ is) t k (n, a) h =
    let put = λ (q : Bytes). if same_bytes i.key_text q then some i.symbol else t q in
    inserted is put k a (elim h [
      | inl (inl e) ↦ inr (rw (e, same_bytes_refl k) (ap some (n ∙ ap symbol_of e)))
      | inl (inr later) ↦ inl later
      | inr e ↦ inr (elim (Bool-cases (same_bytes i.key_text k)) [
        | inl c ↦ rw c (ap some (n ∙ ap symbol_of (same_bytes_sound i.key_text k c)))
        | inr c ↦ rw c e
      ])
    ])

only_inserted :
    (is : List Insert) (t : BytesMap Bytes) (k s : Bytes)
    → All IsNamed is
    → insert_all is t k ≡ some s
    → (Has (λ i. i.key_text ≡ k) is × (s ≡ symbol_of k)) ⊎ (t k ≡ some s)
unfolding insert_all
only_inserted [] t k s a e = inr e
only_inserted (i ∷ is) t k s (n, a) e =
    let put = λ (q : Bytes). if same_bytes i.key_text q then some i.symbol else t q in
    elim (only_inserted is put k s a e) [
      | inl (later, h) ↦ inl (inr later, h)
      | inr f ↦ elim (Bool-cases (same_bytes i.key_text k)) [
        | inl c ↦
            let d = same_bytes_sound i.key_text k c in
            let g : i.symbol ≡ s = cc (rw c at f) in inl (inl d, sym g ∙ (n ∙ ap symbol_of d))
        | inr c ↦ inr (rw c at f)
      ]
    ]

All-append : {A : Type 0} (P : A → Type 0) (xs ys : List A) → All P xs → All P ys → All P (xs ++ ys)
All-append P [] ys h k = k
All-append P (x ∷ xs) ys (p, h) k = (p, All-append P xs ys h k)

named : (m p : Bytes) (ns : List Bytes) → All IsNamed (map (insert_of m p) ns)
unfolding insert_of
named m p [] = tt
named m p (n ∷ ns) = (refl, named m p ns)

all_inserts-IsNamed : (msgs : List RosMsg) → All IsNamed (all_inserts msgs)
unfolding all_inserts
all_inserts-IsNamed [] = tt
all_inserts-IsNamed (msg ∷ msgs) =
    All-append IsNamed (inserts msg) (all_inserts msgs)
      (rw (inserts_lem msg) (named msg.module_name msg.prefix (type_names msg)))
      (all_inserts-IsNamed msgs)

Has-insert_of :
    (m p : Bytes) (ns : List Bytes) (k : Bytes)
    → Has (λ i. i.key_text ≡ k) (map (insert_of m p) ns) ↔ Has (λ n. key m p n ≡ k) ns
unfolding insert_of
Has-insert_of m p [] k = (λ h. h, λ h. h)
Has-insert_of m p (n ∷ ns) k = ground (arith, Has-insert_of m p ns k)

Has-all_inserts :
    (msgs : List RosMsg) (k : Bytes)
    → Has (λ i. i.key_text ≡ k) (all_inserts msgs) ↔ Has (HasKey k) msgs
unfolding all_inserts
Has-all_inserts [] k = (λ h. h, λ h. h)
Has-all_inserts (msg ∷ msgs) k =
    let ih = Has-all_inserts msgs k in
    let one : Has (λ i. i.key_text ≡ k) (inserts msg) ↔ HasKey k msg =
      rw (inserts_lem msg) (Has-insert_of msg.module_name msg.prefix (type_names msg) k) in
    let both = Has-append (λ (i : Insert). i.key_text ≡ k) (inserts msg) (all_inserts msgs) in
    (
      λ h. elim (both.0 h) [ inl q ↦ inl (one.0 q) | inr q ↦ inr (ih.0 q) ],
      λ h. elim h [ inl q ↦ both.1 (inl (one.1 q)) | inr q ↦ both.1 (inr (ih.1 q)) ],
    )

-- The table has exactly the keys of the types of the messages that it is written for, each with the
-- function of the C library for it, also where keys coincide.
pub introspection_fns_lem :
    (msgs : List RosMsg) (k s : Bytes)
    → (introspection_fns msgs k ≡ some s) ↔ (Has (HasKey k) msgs × (s ≡ symbol_of k))
unfolding introspection_fns
introspection_fns_lem msgs k s = (
  (λ e. elim (only_inserted (all_inserts msgs) (λ q. none) k s (all_inserts-IsNamed msgs) e) [
    | inl (h, d) ↦ ((Has-all_inserts msgs k).0 h, d)
    | inr f ↦ cc
  ]),
  λ h.
      inserted (all_inserts msgs) (λ q. none) k (all_inserts-IsNamed msgs)
        (inl ((Has-all_inserts msgs k).1 h.0))
      ∙ ap some (sym h.1),
)
