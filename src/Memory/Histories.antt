-- ===== src/Memory/Histories.antt =====
-- The native messages of an action server over its life, src/action_servers.rs.
use mathlib.Core.Path.{subst}
use r2r.Prelude.{
  ℕ, ◌≡◌, ◌≢◌, refl, sym, ◌∙◌, ap, List, [], ◌∷◌, Option, none, some, Option-cases, true, ◌==◌,
  arith, Bool-cases, inl, inr, All,
}
use r2r.Prelude.Maps.{empty}
use r2r.ActionMsgs.{Uuid, RequestId}
use r2r.Memory.{Heap, ran, Cmd, pure, ◌>>=◌, ◌>>◌, WrappedNativeMsg, from}
use r2r.Memory.Scopes.{Runs, Same, Made, runs_bind, from_lem}
use r2r.Memory.Results.{
  Types, Rcl, ResultMsgs, get, insert_msg, Server, handle_result_request, take_request, add_result,
  keep_result, drop_results,
}
use r2r.Memory.Owned.{alive, IsOwned, destroy-IsOwned, added, add_result-IsOwned}
use r2r.Memory.Answered.{asked_goal, info_content, answered, request_lem, idle_lem}

-- A server is asked for a result, or gets the result of a goal.
pub data Op (N Response : Type 0) : Type 0 where
  request : Rcl N → Op N Response
  result : Uuid → Response → Op N Response

abbrev pub new_server : {N : Type 0} → Server N
new_server = record { result_msgs = []; result_requests = empty; sent = [] }

abbrev pub new_heap : {N : Type 0} → Heap N
new_heap = record { next = 0; cells = empty }

module _ {N : Type 0} where
  Same-IsOwned :
      (h later : Heap N) (msgs : ResultMsgs) → IsOwned h msgs → Same h later → IsOwned later msgs
  Same-IsOwned h later msgs (owned, fresh) (same, later_fresh) =
      (λ p. ap alive (same p) ∙ owned p, later_fresh)

  drop_results-IsOwned :
      (h : Heap N) (msgs : ResultMsgs)
      → IsOwned h msgs
      → Runs (drop_results msgs) h (λ u later. IsOwned later [])
  unfolding drop_results ◌>>◌ ◌>>=◌
  drop_results-IsOwned h [] owned = (tt, (h, (refl, owned)))
  drop_results-IsOwned h ((u, w) ∷ msgs) owned =
      let (v, (mid, (e, left))) =
        destroy-IsOwned h ((u, w) ∷ msgs) msgs w owned (λ p. omega arith) in
      let (t, (later, (f, rest))) = drop_results-IsOwned mid msgs left in
      (t, (later, (rw (drop_results, ◌>>◌, ◌>>=◌, e) f, rest)))

  moved :
      (msgs : ResultMsgs) (h later : Heap N) (after : Server N)
      → after.result_msgs ≡ msgs
      → IsOwned h msgs
      → Same h later
      → IsOwned later after.result_msgs
  moved msgs h later after e owned same =
      subst (IsOwned later) (sym e) (Same-IsOwned h later msgs owned same)

  unowned : (o : Option N) → alive o ≡ 0 → o ≡ none
  unowned none e = refl
  unowned (some n) e = absurd (omega (arith, e))

  added_msgs :
      (uuid : Uuid) (w : WrappedNativeMsg) (n : N) (s : Server N)
      → (added uuid w n s).result_msgs ≡ (insert_msg uuid w s.result_msgs).1
  added_msgs uuid w n s = elim (Option-cases (s.result_requests uuid)) [
    | inl e ↦ rw (added, e) refl
    | inr (rr, e) ↦ rw (added, e) refl
  ]

module _ {N Json Request Info Response : Type 0} (types : Types N Json Request Info Response) where
  unfoldable pub perform : Op N Response → Server N → Cmd N (Server N)
  unfolding handle_result_request keep_result
  perform (request rcl) s = handle_result_request types rcl s
  perform (result uuid msg) s = keep_result types uuid msg s

  unfoldable pub perform_all : List (Op N Response) → Server N → Cmd N (Server N)
  unfolding perform ◌>>=◌
  perform_all [] s = pure s
  perform_all (op ∷ ops) s = do later ← perform op s; perform_all ops later

  -- A server from its creation to where it is dropped.
  unfoldable pub lifetime : List (Op N Response) → Cmd N (Unit {0})
  unfolding perform_all drop_results ◌>>=◌
  lifetime ops = do s ← perform_all ops new_server; drop_results s.result_msgs

  -- If a request is taken, it is for a goal that exists.
  abbrev pub AsksExisting : Op N Response → Type 0
  AsksExisting (request rcl) = elim rcl.taken [
    | none ↦ Unit
    | some (request_id, content) ↦
        rcl.goal_exists (info_content types (asked_goal types content)) ≡ true
  ]
  AsksExisting (result uuid msg) = Unit

  answered_msgs :
      (request_id : RequestId) (uuid : Uuid) (cells : ℕ → Option N) (s : Server N)
      → (answered types request_id uuid cells s).result_msgs ≡ s.result_msgs
  answered_msgs request_id uuid cells s = elim (Option-cases (get uuid s.result_msgs)) [
    | inl e ↦ rw (answered, e) refl
    | inr (w, e) ↦ elim (Option-cases (cells w.msg)) [
      | inl f ↦ rw (answered, e, f) refl
      | inr (n, f) ↦ rw (answered, e, f) refl
    ]
  ]

  KeepsOwned : Op N Response → Server N → Heap N → Type 0
  KeepsOwned op s h = Runs (perform op s) h (λ after later. IsOwned later after.result_msgs)

  request_owned :
      (rcl : Rcl N) (s : Server N) (h : Heap N)
      → IsOwned h s.result_msgs
      → AsksExisting (request rcl)
      → KeepsOwned (request rcl) s h
  unfolding KeepsOwned perform handle_result_request take_request
  request_owned rcl s h (owned, fresh) asks = elim (Option-cases rcl.taken) [
    | inl e ↦
        let (after, (later, (f, (same, kept)))) = idle_lem types rcl s h fresh e in
        (
          after,
          (
            later,
            (
              f,
              moved s.result_msgs h later after (ap (λ (x : Server N). x.result_msgs) same)
                  (owned, fresh) kept,
            ),
          ),
        )
    | inr ((request_id, content), e) ↦
        let (after, (later, (f, (same, kept)))) =
          request_lem types rcl request_id content s h (owned, fresh) e
            (rw (AsksExisting, e) at asks) in
        let msgs =
          ap (λ (x : Server N). x.result_msgs) same
          ∙ answered_msgs request_id (asked_goal types content) h.cells s in
        (after, (later, (f, moved s.result_msgs h later after msgs (owned, fresh) kept)))
  ]

  -- The new message is counted for the result.
  counted :
      (uuid : Uuid) (n : N) (s : Server N) (h mid : Heap N) (w : WrappedNativeMsg)
      → IsOwned h s.result_msgs
      → Made n h w mid
      → IsOwned mid ((uuid, w) ∷ s.result_msgs)
  counted uuid n s h mid w (owned, fresh) (dead, (live, (others, mid_fresh))) = (
    λ p.
        let o = owned p in
        elim (Bool-cases (w.msg == p)) [
          | inl e ↦
              let d : p ≡ w.msg = ground (arith, e) in
              let none_there = ap alive (ap h.cells d ∙ dead) in
              ap alive (ap mid.cells d ∙ live) ∙ rw e (omega (arith, o, none_there))
          | inr e ↦
              let d : p ≢ w.msg = ground (arith, e) in
              ap alive (others p d) ∙ rw e (omega (arith, o))
        ],
    mid_fresh,
  )

  result_owned :
      (uuid : Uuid) (msg : Response) (s : Server N) (h : Heap N)
      → IsOwned h s.result_msgs
      → KeepsOwned (result uuid msg) s h
  unfolding KeepsOwned perform keep_result
  result_owned uuid msg s h (owned, fresh) =
      let content = types.response.copy_to_native msg types.response.create_msg in
      runs_bind (from types.response msg) (λ w. add_result uuid w s) h (Made content h)
        (λ after later. IsOwned later after.result_msgs) (from_lem types.response msg h fresh)
        (λ w mid made.
          let (after, (later, (f, (same, left)))) =
            add_result-IsOwned uuid w content s mid
              (counted uuid content s h mid w (owned, fresh) made) made.1.0 in
          (
            after,
            (
              later,
              (
                f,
                subst (IsOwned later)
                    (sym (ap (λ (x : Server N). x.result_msgs) same ∙ added_msgs uuid w content s))
                    left,
              ),
            ),
          ))

  perform_owned :
      (op : Op N Response) (s : Server N) (h : Heap N)
      → IsOwned h s.result_msgs
      → AsksExisting op
      → KeepsOwned op s h
  perform_owned (request rcl) s h owned asks = request_owned rcl s h owned asks
  perform_owned (result uuid msg) s h owned asks = result_owned uuid msg s h owned

  perform_all-IsOwned :
      (ops : List (Op N Response)) (s : Server N) (h : Heap N)
      → IsOwned h s.result_msgs
      → All AsksExisting ops
      → Runs (perform_all ops s) h (λ after later. IsOwned later after.result_msgs)
  unfolding perform_all KeepsOwned
  perform_all-IsOwned [] s h owned asks = (s, (h, (refl, owned)))
  perform_all-IsOwned (op ∷ ops) s h owned (ask, asks) =
      runs_bind (perform op s) (perform_all ops) h (λ after later. IsOwned later after.result_msgs)
        (λ after later. IsOwned later after.result_msgs) (perform_owned op s h owned ask)
        (λ mid mid_heap mid_owned. perform_all-IsOwned ops mid mid_heap mid_owned asks)

  -- If only existing goals are asked for, a server's life ends with no use of a message that is not
  -- allocated, and with no message left: each that was created is destroyed once.
  pub lifetime_lem :
      (ops : List (Op N Response))
      → All AsksExisting ops
      → (end : Heap N) × ((lifetime ops new_heap ≡ ran (tt, end)) × ((p : ℕ) → end.cells p ≡ none))
  unfolding lifetime
  lifetime_lem ops asks =
      let (u, (end, (e, (owned, fresh)))) =
        runs_bind (perform_all ops new_server) (λ (s : Server N). drop_results s.result_msgs)
          new_heap (λ after later. IsOwned later after.result_msgs) (λ u later. IsOwned later [])
          (perform_all-IsOwned ops new_server new_heap ((λ p. refl), λ q le. refl) asks)
          (λ s later left. drop_results-IsOwned later s.result_msgs left) in
      (end, (e, λ p. unowned (end.cells p) (owned p)))
