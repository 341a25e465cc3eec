-- ===== src/Generated/Faithful.antt =====
-- What the generated code of r2r_msg_gen/src/lib.rs promises: a message that is copied to native
-- memory is read back from it, and which messages cannot be copied.
use r2r.Prelude.{
  ℕ, zero, suc, ◌≡◌, refl, List, [], ◌∷◌, ◌++◌, some, Bool, true, false, ◌==◌, ◌&&◌, not, leb,
  length, any, map, arith, Bool-cases, inl, inr,
}
use r2r.Prelude.Bytes.{Bytes}
use r2r.Errors.{Result, ok, panic, ◌>>=◌}
use r2r.Generated.{
  Texts, Basic, number, string, wide_string, Shape, single, sequence, fixed, bounded, Members, done,
  member, nested, placeholder, Array, RustShaped, NativeBasic, RustBasic, Rust, Native, until_nul,
  to_str, assign, copy_basic, read_basic, copy_array, update, copy_shaped, read_array, read_shaped,
  copy_to_native, from_native,
}

-- What std and widestring promise: an encoded text is decoded to itself.
pub record IsLossless {Str : Type 0} (texts : Texts Str) : Type 0 where
  pub utf8 : (s : Str) → texts.from_utf8 (texts.as_bytes s) ≡ some s
  pub wide : (s : Str) → texts.decode_wide (texts.encode_wide s) ≡ s

-- Which values can be copied.
abbrev pub every {ℓ} : {A : Type ℓ} → (A → Bool) → List A → Bool
every f [] = true
every f (x ∷ xs) = let rest = every f xs in f x && rest

abbrev pub fits_shaped :
    {R : Type 0} → (R → Bool) → (checked : Bool) → (s : Shape) → RustShaped s R → Bool
fits_shaped fits checked single v = fits v
fits_shaped fits checked sequence v = every fits v
fits_shaped fits checked (fixed n) v = (length v == n) && every fits v
fits_shaped fits true (bounded n) v = leb (length v) n && every fits v
fits_shaped fits false (bounded n) v = every fits v

abbrev pub fits_basic : {Str : Type 0} → Texts Str → (b : Basic) → RustBasic Str b → Bool
fits_basic texts number v = true
fits_basic texts string v = not (any (λ c. c == 0) (texts.as_bytes v))
fits_basic texts wide_string v = true

-- The text fields have no NUL, the fixed arrays their length, and the bounded sequences that are not
-- of messages at most their bound.
abbrev pub fits : {Str : Type 0} → Texts Str → (ms : Members) → Rust Str ms → Bool
fits texts done v = true
fits texts (member s b ms) (v, vs) = fits_shaped (fits_basic texts b) true s v && fits texts ms vs
fits texts (nested s t ms) (v, vs) = fits_shaped (fits texts t) false s v && fits texts ms vs
fits texts (placeholder ms) vs = fits texts ms vs

-- A value that fits is written so that it is read back, and one that does not is a panic.
abbrev pub Copies : {R N : Type 0} → (R → N → Result N) → (N → R) → (R → Bool) → Type 0
Copies {R} {N} copy read fit =
    (v : R) (old : N)
    → (fit v ≡ true → (n : N) × ((copy v old ≡ ok n) × (read n ≡ v)))
      × (fit v ≡ false → copy v old ≡ panic)

until_nul_ended : (q : Bytes) → any (λ c. c == 0) q ≡ false → until_nul (q ++ 0 ∷ []) ≡ q
unfolding any
until_nul_ended [] h = refl
until_nul_ended (c ∷ q) h = ground (arith, until_nul_ended q)

basic-Copies :
    {Str : Type 0} (texts : Texts Str) (b : Basic)
    → IsLossless texts
    → Copies (copy_basic texts b) (read_basic texts b) (fits_basic texts b)
unfolding copy_basic read_basic assign to_str
basic-Copies texts number l v old = ((λ h. (v, (refl, refl))), λ h. cc)
basic-Copies texts wide_string l v old = ((λ h. (texts.encode_wide v, (refl, l.wide v))), λ h. cc)
basic-Copies texts string l v old = elim (Bool-cases (any (λ c. c == 0) (texts.as_bytes v))) [
  | inl e ↦ ((λ h. cc (rw e at h)), λ h. rw (assign, e) refl)
  | inr e ↦ (
    (λ h. (
      texts.as_bytes v ++ 0 ∷ [],
      (rw (assign, e) refl, rw (to_str, until_nul_ended (texts.as_bytes v) e, l.utf8 v) refl),
    )),
    λ h. cc (rw e at h),
  )
]

module _ {R N : Type 0} (copy : R → N → Result N) (read : N → R) (fit : R → Bool)
    (c : Copies copy read fit) where
  array-Copies :
      (n : ℕ) (vs : List R) (ts : Array n N)
      → length vs ≡ n
      → (every fit vs ≡ true
          → (ns : Array n N) × ((copy_array copy n vs ts ≡ ok ns) × (read_array read n ns ≡ vs)))
        × (every fit vs ≡ false → copy_array copy n vs ts ≡ panic)
  unfolding copy_array read_array
  array-Copies zero [] ts e = ((λ h. (tt, (refl, refl))), λ h. cc)
  array-Copies zero (v ∷ vs) ts e = absurd (omega (arith, e))
  array-Copies (suc n) [] ts e = absurd (omega (arith, e))
  array-Copies (suc n) (v ∷ vs) (t, ts) e =
      let rest = array-Copies n vs ts (omega (arith, e)) in
      elim (Bool-cases (fit v)) [
        | inr bad ↦ ((λ h. cc (rw bad at h)), λ h. rw ((c v t).1 bad) refl)
        | inl good ↦
            let (u, (f, g)) = (c v t).0 good in
            (
              (λ h.
                  let (us, (p, q)) = rest.0 (rw good at h) in
                  ((u, us), (rw (f, p) refl, rw (g, q) refl))),
              λ h. rw (f, rest.1 (rw good at h)) refl,
            )
      ]

  update-Copies :
      (init : N) (vs : List R)
      → (every fit vs ≡ true → (ns : List N) × ((update copy init vs ≡ ok ns) × (map read ns ≡ vs)))
        × (every fit vs ≡ false → update copy init vs ≡ panic)
  unfolding update
  update-Copies init [] = ((λ h. ([], (refl, refl))), λ h. cc)
  update-Copies init (v ∷ vs) =
      let rest = update-Copies init vs in
      elim (Bool-cases (fit v)) [
        | inr bad ↦ ((λ h. cc (rw bad at h)), λ h. rw ((c v init).1 bad) refl)
        | inl good ↦
            let (u, (f, g)) = (c v init).0 good in
            (
              (λ h.
                  let (us, (p, q)) = rest.0 (rw good at h) in
                  (u ∷ us, (rw (f, p) refl, rw (g, q) refl))),
              λ h. rw (f, rest.1 (rw good at h)) refl,
            )
      ]

  shaped-Copies :
      (checked : Bool) (init : N) (s : Shape)
      → Copies (copy_shaped copy checked init s) (read_shaped read s) (fits_shaped fit checked s)
  unfolding copy_shaped read_shaped
  shaped-Copies checked init single v old = c v old
  shaped-Copies checked init sequence v old = update-Copies init v
  shaped-Copies false init (bounded n) v old = update-Copies init v
  shaped-Copies true init (bounded n) v old = elim (Bool-cases (leb (length v) n)) [
    | inr e ↦ ((λ h. cc (rw e at h)), λ h. rw (e, copy_shaped) refl)
    | inl e ↦ (
      (λ h. rw (e, copy_shaped) ((update-Copies init v).0 (rw e at h))),
      λ h. rw (e, copy_shaped) ((update-Copies init v).1 (rw e at h)),
    )
  ]
  shaped-Copies checked init (fixed n) v old = elim (Bool-cases (length v == n)) [
    | inr e ↦ ((λ h. cc (rw e at h)), λ h. rw (e, copy_shaped) refl)
    | inl e ↦
        let inside = array-Copies n v old (ground (arith, e)) in
        (
          (λ h. rw (e, copy_shaped) (inside.0 (rw e at h))),
          λ h. rw (e, copy_shaped) (inside.1 (rw e at h)),
        )
  ]

-- Two members, one after the other.
module _ {R N Rs Ns : Type 0} (read : N → R) (reads : Ns → Rs) (v : R) (vs : Rs) (r : Result N)
    (rs : Result Ns) (f fs : Bool)
    (first : (f ≡ true → (n : N) × ((r ≡ ok n) × (read n ≡ v))) × (f ≡ false → r ≡ panic))
    (rest : (fs ≡ true → (ns : Ns) × ((rs ≡ ok ns) × (reads ns ≡ vs)))
      × (fs ≡ false → rs ≡ panic)) where
  abbrev pair : Result (N × Ns)
  pair = do n ← r; ns ← rs; ok (n, ns)

  pair-Copies :
      ((f && fs) ≡ true
        → (n : N × Ns) × ((pair ≡ ok n) × (◌≡◌ {A = R × Rs} (read n.0, reads n.1) (v, vs))))
      × ((f && fs) ≡ false → pair ≡ panic)
  pair-Copies = elim (Bool-cases f) [
    | inr bad ↦ ((λ h. cc (rw bad at h)), λ h. rw (first.1 bad) refl)
    | inl good ↦
        let (n, (p, q)) = first.0 good in
        (
          (λ h.
              let (ns, (p2, q2)) = rest.0 (rw good at h) in
              ((n, ns), (rw (p, p2) refl, rw (q, q2) refl))),
          λ h. rw (p, rest.1 (rw good at h)) refl,
        )
  ]

module _ {Str : Type 0} (texts : Texts Str) (init_basic : (b : Basic) → NativeBasic b)
    (init : (ms : Members) → Native ms) (lossless : IsLossless texts) where
  -- Given that encoded texts are decoded to themselves: for every message type, a message that fits is
  -- copied to native memory, whatever was there, and what is read from there is the message; a
  -- message that does not fit is a panic.
  pub from_native-copy_to_native :
      (ms : Members) (v : Rust Str ms) (old : Native ms)
      → (fits texts ms v ≡ true
          → (n : Native ms) × ((copy_to_native texts init_basic init ms v old ≡ ok n)
              × (from_native texts ms n ≡ v)))
        × (fits texts ms v ≡ false → copy_to_native texts init_basic init ms v old ≡ panic)
  unfolding copy_to_native from_native
  from_native-copy_to_native done v old = ((λ h. (tt, (refl, refl))), λ h. cc)
  from_native-copy_to_native (placeholder ms) vs (old, olds) =
      let rest = from_native-copy_to_native ms vs olds in
      ((λ h. let (ns, (p, q)) = rest.0 h in ((old, ns), (rw p refl, q))), λ h. rw (rest.1 h) refl)
  from_native-copy_to_native (member s b ms) (v, vs) (old, olds) =
      let rest = from_native-copy_to_native ms vs olds in
      let first =
        shaped-Copies (copy_basic texts b) (read_basic texts b) (fits_basic texts b)
          (basic-Copies texts b lossless) true (init_basic b) s v old in
      pair-Copies (read_shaped (read_basic texts b) s) (from_native texts ms) v vs
        (copy_shaped (copy_basic texts b) true (init_basic b) s v old)
        (copy_to_native texts init_basic init ms vs olds)
        (fits_shaped (fits_basic texts b) true s v) (fits texts ms vs) first rest
  from_native-copy_to_native (nested s t ms) (v, vs) (old, olds) =
      let rest = from_native-copy_to_native ms vs olds in
      let first =
        shaped-Copies (copy_to_native texts init_basic init t) (from_native texts t) (fits texts t)
          (from_native-copy_to_native t) false (init t) s v old in
      pair-Copies (read_shaped (from_native texts t) s) (from_native texts ms) v vs
        (copy_shaped (copy_to_native texts init_basic init t) false (init t) s v old)
        (copy_to_native texts init_basic init ms vs olds) (fits_shaped (fits texts t) false s v)
        (fits texts ms vs) first rest
