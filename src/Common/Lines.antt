-- ===== src/Common/Lines.antt =====
-- What the lines of an index file add to the list of r2r_common/src/lib.rs.
use mathlib.Core.List.{append_assoc}
use r2r.Prelude.{
  ◌≡◌, refl, sym, List, [], ◌∷◌, ◌++◌, Option, none, some, Bool, true, false, arith, ◌==◌, ◌&&◌,
  ◌||◌, if◌then◌else◌, length, any, Bool-cases, inl, inr, ◌⊎◌,
}
use r2r.Prelude.Bytes.{Bytes, bytes, starts_with, ends_with}
use r2r.Errors.{Result, ok, ◌>>=◌}
use r2r.Common.{found, line_msgs}
use r2r.Common.Slices.{middle, starts_with-append, ends_with-append, cut_middle}
use r2r.Common.Names.{Kind, in_msg, in_srv, in_action, folder, ending, Declares, one_kind}

-- What the closure does about one kind.
unfoldable added : Kind → Option Bytes → Bytes → Result (List Bytes)
unfolding found
added k file_name l =
    if starts_with (folder k ++ b'/' ∷ []) l
      && (ends_with (bytes ".idl") l || ends_with (ending k) l)
    then (if ends_with (ending k) l
        then found file_name (b'/' ∷ (folder k ++ b'/' ∷ [])) (length (folder k ++ b'/' ∷ []))
            (length (ending k)) l
        else found file_name (b'/' ∷ (folder k ++ b'/' ∷ [])) (length (folder k ++ b'/' ∷ [])) 4 l)
    else ok []

if_same {ℓ} : {A : Type ℓ} (b : Bool) (x : A) → (if b then x else x) ≡ x
if_same true x = refl
if_same false x = refl

line_msgs-added :
    (f : Option Bytes) (l : Bytes)
    → line_msgs f l
      ≡ (do a ← added in_msg f l; b ← added in_srv f l; c ← added in_action f l; ok (a ++ (b ++ c)))
unfolding line_msgs added
line_msgs-added f l =
    rw (if_same (ends_with (bytes ".msg") l), if_same (ends_with (bytes ".srv") l)) refl

found_middle :
    (f i p n s : Bytes)
    → found (some f) i (length p) (length s) (p ++ (n ++ s)) ≡ ok ((f ++ (i ++ n)) ∷ [])
unfolding found
found_middle f i p n s = rw (found, cut_middle p n s) refl

found_between :
    (f i p n s l : Bytes)
    → l ≡ p ++ (n ++ s)
    → found (some f) i (length p) (length s) l ≡ ok ((f ++ (i ++ n)) ∷ [])
found_between f i p n s l d = rw d (found_middle f i p n s)

slash_free : (k : Kind) → any (λ x. x == b'/') (ending k) ≡ false
unfolding any
slash_free in_msg = refl
slash_free in_srv = refl
slash_free in_action = refl

idl_slash_free : any (λ x. x == b'/') (bytes ".idl") ≡ false
unfolding any
idl_slash_free = refl

-- What is added for a kind, whatever the line.
abbrev Adds : Kind → (f l : Bytes) → Type 0
Adds k f l =
    ((n : Bytes) × (Declares k n l
        × (added k (some f) l ≡ ok ((f ++ (b'/' ∷ (folder k ++ b'/' ∷ []) ++ n)) ∷ []))))
    ⊎ (((n : Bytes) → ¬ Declares k n l) × (added k (some f) l ≡ ok []))

added_hit :
    (k : Kind) (f l : Bytes)
    → starts_with (folder k ++ b'/' ∷ []) l ≡ true
    → (ends_with (bytes ".idl") l || ends_with (ending k) l) ≡ true
    → Adds k f l
unfolding added
added_hit k f l p q = elim (Bool-cases (ends_with (ending k) l)) [
  | inl e ↦
      let (n, d) = middle b'/' (folder k) (ending k) l p e (slash_free k) in
      inl (
        n,
        (
          (ending k, (inr refl, d)),
          rw (p, q, e)
              (found_between f (b'/' ∷ (folder k ++ b'/' ∷ [])) (folder k ++ b'/' ∷ []) n (ending k)
                l d),
        ),
      )
  | inr e ↦
      let idl : ends_with (bytes ".idl") l ≡ true = ground (arith, q) in
      let (n, d) = middle b'/' (folder k) (bytes ".idl") l p idl idl_slash_free in
      inl (
        n,
        (
          (bytes ".idl", (inl refl, d)),
          rw (p, q, e)
              (found_between f (b'/' ∷ (folder k ++ b'/' ∷ [])) (folder k ++ b'/' ∷ []) n
                (bytes ".idl") l d),
        ),
      )
]

ends_declared :
    (k : Kind) (n l : Bytes)
    → Declares k n l
    → (ends_with (bytes ".idl") l || ends_with (ending k) l) ≡ true
ends_declared k n l (s, (c, e)) =
    let p = folder k ++ b'/' ∷ [] in
    let h : ends_with s l ≡ true = rw (e, sym (append_assoc p n s)) (ends_with-append (p ++ n) s) in
    elim c [ inl i ↦ ground (arith, rw i at h) | inr i ↦ ground (arith, rw i at h) ]

starts_declared :
    (k : Kind) (n l : Bytes) → Declares k n l → starts_with (folder k ++ b'/' ∷ []) l ≡ true
starts_declared k n l (s, (c, e)) = rw e (starts_with-append (folder k ++ b'/' ∷ []) (n ++ s))

added_lem : (k : Kind) (f l : Bytes) → Adds k f l
unfolding added
added_lem k f l = elim (Bool-cases (starts_with (folder k ++ b'/' ∷ []) l)) [
  | inr p ↦ inr ((λ n d. cc (p, starts_declared k n l d)), rw p refl)
  | inl p ↦ elim (Bool-cases (ends_with (bytes ".idl") l || ends_with (ending k) l)) [
    | inl q ↦ added_hit k f l p q
    | inr q ↦ inr ((λ n d. cc (q, ends_declared k n l d)), rw (p, q) refl)
  ]
]

abbrev LineMsgs : (f l : Bytes) → Type 0
LineMsgs f l =
    ((k : Kind) × ((n : Bytes) × (Declares k n l
          × (line_msgs (some f) l ≡ ok ((f ++ (b'/' ∷ (folder k ++ b'/' ∷ []) ++ n)) ∷ [])))))
    ⊎ (((k : Kind) (n : Bytes) → ¬ Declares k n l) × (line_msgs (some f) l ≡ ok []))

every : (P : Kind → Type 0) → P in_msg → P in_srv → P in_action → (k : Kind) → P k
every P p q r in_msg = p
every P p q r in_srv = q
every P p q r in_action = r

joined : (f l : Bytes) → Adds in_msg f l → Adds in_srv f l → Adds in_action f l → LineMsgs f l
joined f l (inl (n, (d, e))) (inr (p, g)) (inr (q, h)) =
    inl (in_msg, (n, (d, rw (line_msgs-added (some f) l, e, g, h) refl)))
joined f l (inr (p, g)) (inl (n, (d, e))) (inr (q, h)) =
    inl (in_srv, (n, (d, rw (line_msgs-added (some f) l, e, g, h) refl)))
joined f l (inr (p, g)) (inr (q, h)) (inl (n, (d, e))) =
    inl (in_action, (n, (d, rw (line_msgs-added (some f) l, e, g, h) refl)))
joined f l (inr (p, g)) (inr (q, h)) (inr (r, i)) = inr (
  every (λ k. (n : Bytes) → ¬ Declares k n l) p q r,
  rw (line_msgs-added (some f) l, g, h, i) refl,
)
joined f l (inl (n, (d, e))) (inl (m, (c, g))) w = cc (one_kind in_msg in_srv n m l d c)
joined f l (inl (n, (d, e))) (inr z) (inl (m, (c, g))) = cc (one_kind in_msg in_action n m l d c)
joined f l (inr z) (inl (n, (d, e))) (inl (m, (c, g))) = cc (one_kind in_srv in_action n m l d c)

-- Nothing is read out of range in any line: a line that is the path of a message, service or
-- action file adds the path of its type in the package, without the ending; another line adds nothing.
pub line_msgs_lem : (f l : Bytes) → LineMsgs f l
line_msgs_lem f l =
    joined f l (added_lem in_msg f l) (added_lem in_srv f l) (added_lem in_action f l)

if_always {ℓ} : {A : Type ℓ} (b : Bool) (x y : A) → x ≡ y → (if b then x else y) ≡ y
if_always true x y e = e
if_always false x y e = refl

added_nameless : (k : Kind) (l : Bytes) → added k none l ≡ ok []
unfolding added found
added_nameless k l =
    if_always
      (starts_with (folder k ++ b'/' ∷ []) l
        && (ends_with (bytes ".idl") l || ends_with (ending k) l))
      (if ends_with (ending k) l then ok [] else ok []) (ok [])
      (if_same (ends_with (ending k) l) (ok []))

-- A file whose name is not UTF-8 adds nothing.
pub line_msgs_nameless : (l : Bytes) → line_msgs none l ≡ ok []
line_msgs_nameless l =
    rw
      (
        line_msgs-added none l,
        added_nameless in_msg l,
        added_nameless in_srv l,
        added_nameless in_action l,
      )
      refl
