-- ===== src/Build/Paths.antt =====
-- The paths of the Rust types in the text that build.rs writes, and what the text of one message,
-- service or action declares. A path is the list of its names, the innermost first.
use r2r.Prelude.{
  ◌≡◌, refl, ap, ◌∙◌, List, [], ◌∷◌, ◌++◌, Option, none, some, false, map, ◌==◌, ◌||◌,
  if◌then◌else◌, length, any, Bool-cases, inl, inr, All,
}
use r2r.Prelude.Bytes.{Bytes, bytes, same_bytes}
use r2r.Errors.{Result, ok}
use r2r.Common.{RosMsg, BytesMap, collect}
use r2r.Common.Names.{Kind, in_msg, in_srv, in_action, folder}
use r2r.Build.Keys.{part}
use r2r.Build.Naming.{Library, last_part, struct_name}
use r2r.Build.Codegen.{
  Piece, open_mod, use_super, rust_service, rust_action, rust_msg, close_mod, generate_rust_msg,
  internal_service, action_pieces, service_pieces,
}
use r2r.Build.Cutting.{has_underscore, last_part-part, last_part-part-part}
use r2r.Build.Inserted.{type_names}

abbrev pub RustPath : Type 0
RustPath = List Bytes

abbrev declare : RustPath → Option (List RustPath × RustPath) → Option (List RustPath × RustPath)
declare path none = none
declare path (some (declared, left)) = some (path ∷ declared, left)

-- What pieces declare inside a module, and the module that is open after them. They are refused
-- if they close a module that is not open, or if a `use` does not go up to the root of the crate.
unfoldable pub scan : RustPath → List Piece → Option (List RustPath × RustPath)
scan st [] = some ([], st)
scan st (open_mod n ∷ ps) = scan (n ∷ st) ps
scan st (use_super levels ∷ ps) =
    let rest = scan st ps in if levels == length st then rest else none
scan st (rust_service m p n ∷ ps) = declare (bytes "Service" ∷ st) (scan st ps)
scan st (rust_action m p n ∷ ps) = declare (bytes "Action" ∷ st) (scan st ps)
scan st (rust_msg struct m p n ∷ ps) = declare (struct ∷ st) (scan st ps)
scan [] (close_mod ∷ ps) = none
scan (n ∷ st) (close_mod ∷ ps) = scan st ps

declare-append :
    (path : RustPath) (o later : Option (List RustPath × RustPath)) (a b : List RustPath)
    (mid end : RustPath)
    → declare path o ≡ some (a, mid)
    → ((c : List RustPath) → o ≡ some (c, mid) → later ≡ some (c ++ b, end))
    → declare path later ≡ some (a ++ b, end)
declare-append path none later a b mid end e f = cc
declare-append path (some (c, left)) later a b mid end e f =
    let h : path ∷ c ≡ a = cc in ap (declare path) (f c cc) ∙ ap (λ q. some (q ++ b, end)) h

pub scan-append :
    (st : RustPath) (xs ys : List Piece) (a b : List RustPath) (mid end : RustPath)
    → scan st xs ≡ some (a, mid)
    → scan mid ys ≡ some (b, end)
    → scan st (xs ++ ys) ≡ some (a ++ b, end)
unfolding scan
scan-append st [] ys a b mid end e h =
    let f : [] ≡ a = cc in
    let g : st ≡ mid = cc in ap (λ q. scan q ys) g ∙ (h ∙ ap (λ q. some (q ++ b, end)) f)
scan-append st (open_mod n ∷ xs) ys a b mid end e h = scan-append (n ∷ st) xs ys a b mid end e h
scan-append st (use_super levels ∷ xs) ys a b mid end e h =
    elim (Bool-cases (levels == length st)) [
      | inl c ↦ rw (scan, c) (scan-append st xs ys a b mid end (rw (scan, c) at e) h)
      | inr c ↦ cc (rw (scan, c) at e)
    ]
scan-append st (rust_service m p n ∷ xs) ys a b mid end e h =
    declare-append (bytes "Service" ∷ st) (scan st xs) (scan st (xs ++ ys)) a b mid end e
      (λ c f. scan-append st xs ys c b mid end f h)
scan-append st (rust_action m p n ∷ xs) ys a b mid end e h =
    declare-append (bytes "Action" ∷ st) (scan st xs) (scan st (xs ++ ys)) a b mid end e
      (λ c f. scan-append st xs ys c b mid end f h)
scan-append st (rust_msg struct m p n ∷ xs) ys a b mid end e h =
    declare-append (struct ∷ st) (scan st xs) (scan st (xs ++ ys)) a b mid end e
      (λ c f. scan-append st xs ys c b mid end f h)
scan-append [] (close_mod ∷ xs) ys a b mid end e h = cc
scan-append (n ∷ st) (close_mod ∷ xs) ys a b mid end e h = scan-append st xs ys a b mid end e h

-- The paths of the types that a message, a service or an action stands for.
abbrev pub type_paths : Kind → (m n : Bytes) → List RustPath
type_paths in_msg m n = (n ∷ bytes "msg" ∷ m ∷ []) ∷ []
type_paths in_srv m n =
    map (λ s. s ∷ n ∷ bytes "srv" ∷ m ∷ [])
      (bytes "Service" ∷ bytes "Request" ∷ bytes "Response" ∷ [])
type_paths in_action m n =
    let own = λ (s : Bytes). s ∷ n ∷ bytes "action" ∷ m ∷ [] in
    let internal = λ (srv : Bytes).
      map (λ s. s ∷ srv ∷ n ∷ bytes "action" ∷ m ∷ [])
        (bytes "Service" ∷ bytes "Request" ∷ bytes "Response" ∷ []) in
    map own (bytes "Action" ∷ bytes "Goal" ∷ bytes "Result" ∷ bytes "Feedback" ∷ [])
    ++ (internal (bytes "SendGoal")
        ++ (internal (bytes "GetResult") ++ own (bytes "FeedbackMessage") ∷ []))

-- The code writes pieces that declare the paths in the module, and leave it open.
abbrev pub Writes : RustPath → Result (List Piece) → List RustPath → Type 0
Writes st r declared =
    (pieces : List Piece) × ((r ≡ ok pieces) × (scan st pieces ≡ some (declared, st)))

module _ {H : Type 0} (lib : Library H) (fns : BytesMap Bytes) where
  -- Every type of the message gets its name, or the last part of it.
  abbrev pub AreNamed : RosMsg → Type 0
  AreNamed msg =
      All
        (λ n. struct_name lib fns msg.module_name msg.prefix n ≡ (
          if same_bytes msg.prefix (bytes "srv") || same_bytes msg.prefix (bytes "action")
          then last_part n
          else ok n))
        (type_names msg)

  abbrev pub type_pieces : Kind → (m n : Bytes) → Result (List Piece)
  type_pieces in_msg m n = generate_rust_msg lib fns m (folder in_msg) n
  type_pieces in_srv m n = service_pieces lib fns m (folder in_srv) n
  type_pieces in_action m n = action_pieces lib fns m (folder in_action) n

  generated :
      (m p n s : Bytes)
      → struct_name lib fns m p n ≡ ok s
      → generate_rust_msg lib fns m p n ≡ ok (rust_msg s m p n ∷ [])
  unfolding generate_rust_msg
  generated m p n s e = rw (generate_rust_msg, e) refl

  generated_part :
      (m p n s : Bytes)
      → has_underscore n ≡ false
      → has_underscore s ≡ false
      → struct_name lib fns m p (part n s) ≡ last_part (part n s)
      → generate_rust_msg lib fns m p (part n s) ≡ ok (rust_msg s m p (part n s) ∷ [])
  generated_part m p n s u v e = generated m p (part n s) s (e ∙ last_part-part n s u v)

  internal_text : (m p n srv : Bytes) → List Piece
  internal_text m p n srv =
      open_mod srv
      ∷ use_super 4
      ∷ rust_service m p (part n srv)
      ∷ rust_msg (bytes "Request") m p (part (part n srv) (bytes "Request"))
      ∷ rust_msg (bytes "Response") m p (part (part n srv) (bytes "Response"))
      ∷ close_mod
      ∷ []

  internal_generated :
      (m p n srv : Bytes)
      → has_underscore n ≡ false
      → has_underscore srv ≡ false
      → struct_name lib fns m p (part (part n srv) (bytes "Request"))
        ≡ last_part (part (part n srv) (bytes "Request"))
      → struct_name lib fns m p (part (part n srv) (bytes "Response"))
        ≡ last_part (part (part n srv) (bytes "Response"))
      → internal_service lib fns m p n srv ≡ ok (internal_text m p n srv)
  unfolding internal_service internal_text
  internal_generated m p n srv u v e f =
      let text =
        λ (s : Bytes)
            (h : struct_name lib fns m p (part (part n srv) s) ≡ last_part (part (part n srv) s)).
          generated m p (part (part n srv) s) s (h ∙ last_part-part-part n srv s u v) in
      rw (internal_service, text (bytes "Request") e, text (bytes "Response") f) refl

  pub type_pieces-Writes :
      (k : Kind) (m n : Bytes)
      → has_underscore n ≡ false
      → AreNamed (record { module_name = m; prefix = folder k; name = n })
      → Writes (folder k ∷ m ∷ []) (type_pieces k m n) (type_paths k m n)
  unfolding scan internal_text any collect service_pieces action_pieces
  type_pieces-Writes in_msg m n u (e, h) =
      (rust_msg n m (folder in_msg) n ∷ [], (generated m (folder in_msg) n n e, refl))
  type_pieces-Writes in_srv m n u (e, (f, h)) =
      let p = folder in_srv in
      (
        open_mod n
            ∷ use_super 3
            ∷ rust_service m p n
            ∷ rust_msg (bytes "Request") m p (part n (bytes "Request"))
            ∷ rust_msg (bytes "Response") m p (part n (bytes "Response"))
            ∷ close_mod
            ∷ [],
        (
          rw
              (
                service_pieces,
                generated_part m p n (bytes "Request") u refl e,
                generated_part m p n (bytes "Response") u refl f,
              )
              refl,
          refl,
        ),
      )
  type_pieces-Writes in_action m n u (a, (b, (c, (d, (e, (f, (g, (h, t)))))))) =
      let p = folder in_action in
      (
        open_mod n
            ∷ use_super 3
            ∷ rust_action m p n
            ∷ rust_msg (bytes "Goal") m p (part n (bytes "Goal"))
            ∷ rust_msg (bytes "Result") m p (part n (bytes "Result"))
            ∷ rust_msg (bytes "Feedback") m p (part n (bytes "Feedback"))
            ∷ (internal_text m p n (bytes "SendGoal")
                ++ (internal_text m p n (bytes "GetResult")
                    ++ rust_msg (bytes "FeedbackMessage") m p (part n (bytes "FeedbackMessage"))
                      ∷ close_mod
                      ∷ [])),
        (
          rw
              (
                action_pieces,
                generated_part m p n (bytes "Goal") u refl a,
                generated_part m p n (bytes "Result") u refl b,
                generated_part m p n (bytes "Feedback") u refl c,
                generated_part m p n (bytes "FeedbackMessage") u refl d,
                internal_generated m p n (bytes "SendGoal") u refl e f,
                internal_generated m p n (bytes "GetResult") u refl g h,
              )
              refl,
          refl,
        ),
      )
