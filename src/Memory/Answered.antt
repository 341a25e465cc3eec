-- ===== src/Memory/Answered.antt =====
-- Result requests and results of an action server, src/action_servers.rs, with the native
-- messages that they use.
use r2r.Prelude.{
  ℕ, ◌≡◌, ◌≢◌, refl, ◌∙◌, ap, ◌∷◌, Option, none, some, Option-cases, true, false, inl, inr,
}
use r2r.Prelude.Maps.{insert}
use r2r.ActionMsgs.{Uuid, RequestId}
use r2r.ActionServer.Results.{enqueue}
use r2r.Memory.{
  Heap, ran, fault, Cmd, ◌>>=◌, ◌>>◌, load, store, WrappedNativeMsg, new, from, drop_msg, scoped,
}
use r2r.Memory.Scopes.{
  IsFresh, Runs, Same, Made, Within, load_lem, store_lem, destroy_lem, new_lem, from_lem,
  scoped_lem,
}
use r2r.Memory.Results.{
  Types, Rcl, get, Server, send_result_response, response_ptr, answer_request, take_request,
  handle_result_request,
}
use r2r.Memory.Owned.{IsOwned, get_owners, owned_alive}

module _ {N Json Request Info Response : Type 0} (types : Types N Json Request Info Response) where
  -- The goal that the content of a request asks for, and the content of a goal info for it.
  abbrev pub asked_goal : N → Uuid
  asked_goal content = types.destructure_result_request_msg (types.request.from_native content)

  abbrev pub info_content : Uuid → N
  info_content uuid = types.info.copy_to_native (types.info_of uuid) types.info.create_msg

  -- The server after a request that rcl takes, for a goal that exists: `n` is what the message of
  -- the result holds.
  abbrev pub answered : RequestId → Uuid → (cells : ℕ → Option N) → Server N → Server N
  answered request_id uuid cells s = elim (get uuid s.result_msgs) [
    | some w ↦ elim (cells w.msg) [
      | some n ↦ record s { sent = (request_id, n) ∷ s.sent }
      | none ↦ s
    ]
    | none ↦ record s {
      result_requests = insert uuid (enqueue (s.result_requests uuid) request_id) s.result_requests;
    }
  ]

  answer_lem :
      (rcl : Rcl N) (request_id : RequestId) (uuid : Uuid) (s : Server N) (w : WrappedNativeMsg)
      (h : Heap N)
      → rcl.goal_exists (info_content uuid) ≡ true
      → h.cells w.msg ≡ some (info_content uuid)
      → ((v : WrappedNativeMsg)
          → get uuid s.result_msgs ≡ some v
          → (n : N) × (h.cells v.msg ≡ some n))
      → answer_request types rcl request_id uuid s w h ≡ ran (answered request_id uuid h.cells s, h)
  unfolding answer_request response_ptr load ◌>>=◌
  answer_lem rcl request_id uuid s w h known info live =
      elim (Option-cases (get uuid s.result_msgs)) [
        | inl e ↦
            rw (answer_request, ◌>>=◌, load_lem w.msg _ h info, response_ptr, known, answered, e)
              refl
        | inr (v, e) ↦
            let (n, l) = live v e in
            rw (answer_request, ◌>>=◌, load_lem w.msg _ h info, response_ptr, known, answered, e, l)
              refl
      ]

  -- The pointer for a goal that does not exist is to a message that is destroyed already.
  dangling :
      (uuid : Uuid) (s : Server N) (h : Heap N)
      → IsFresh h
      → (p : ℕ) × ((later : Heap N) × ((response_ptr types false uuid s h ≡ ran (some p, later))
            × (later.cells p ≡ none)))
  unfolding response_ptr scoped drop_msg ◌>>=◌ ◌>>◌
  dangling uuid s h fresh =
      let (w, (mid, (e, (dead, (live, (others, mid_fresh)))))) =
        from_lem types.response types.unknown_response h fresh in
      let (u, (later, (k, (gone, rest)))) = destroy_lem w.msg _ mid live mid_fresh in
      (w.msg, (later, (rw (response_ptr, scoped, ◌>>=◌, ◌>>◌, e, drop_msg, k) refl, gone)))

  send_dead :
      (request_id : RequestId) (p : ℕ) (s : Server N) (h : Heap N)
      → h.cells p ≡ none
      → send_result_response request_id p s h ≡ fault
  unfolding send_result_response load ◌>>=◌
  send_dead request_id p s h e = rw (send_result_response, ◌>>=◌, load, e) refl

  scoped_fault :
      {A : Type 0} (make : Cmd N WrappedNativeMsg) (body : WrappedNativeMsg → Cmd N A)
      (h mid : Heap N) (w : WrappedNativeMsg)
      → make h ≡ ran (w, mid)
      → body w mid ≡ fault
      → scoped make body h ≡ fault
  unfolding scoped ◌>>=◌
  scoped_fault make body h mid w e f = rw (scoped, ◌>>=◌, e, f) refl

  -- The message that is answered with is gone before rcl reads it.
  unknown_lem :
      (rcl : Rcl N) (request_id : RequestId) (uuid : Uuid) (s : Server N) (w : WrappedNativeMsg)
      (h : Heap N)
      → IsFresh h
      → rcl.goal_exists (info_content uuid) ≡ false
      → h.cells w.msg ≡ some (info_content uuid)
      → answer_request types rcl request_id uuid s w h ≡ fault
  unfolding answer_request load ◌>>=◌
  unknown_lem rcl request_id uuid s w h fresh unknown info =
      let (p, (later, (e, gone))) = dangling uuid s h fresh in
      rw
        (
          answer_request,
          ◌>>=◌,
          load_lem w.msg _ h info,
          unknown,
          e,
          send_dead request_id p s later gone,
        )
        refl

  answered_same :
      (request_id : RequestId) (uuid : Uuid) (c d : ℕ → Option N) (s : Server N)
      → ((v : WrappedNativeMsg) → get uuid s.result_msgs ≡ some v → c v.msg ≡ d v.msg)
      → answered request_id uuid c s ≡ answered request_id uuid d s
  answered_same request_id uuid c d s h = elim (Option-cases (get uuid s.result_msgs)) [
    | inl e ↦ rw (answered, e) refl
    | inr (v, e) ↦ rw (answered, e, h v e) refl
  ]

  -- An address of a result is not that of a message which is new.
  kept_at :
      (h : Heap N) (s : Server N) (uuid : Uuid) (v : WrappedNativeMsg) (p : ℕ)
      → IsOwned h s.result_msgs
      → get uuid s.result_msgs ≡ some v
      → h.cells p ≡ none
      → v.msg ≢ p
  kept_at h s uuid v p owned e dead same =
      let (n, live) = owned_alive h s.result_msgs v.msg owned (get_owners uuid s.result_msgs v e) in
      cc (live, ap h.cells same, dead)

  -- Once rcl has written the request, what is left is to answer it.
  request_taken :
      (rcl : Rcl N) (request_id : RequestId) (content : N) (s : Server N) (mid stored : Heap N)
      (w : WrappedNativeMsg)
      → rcl.taken ≡ some (request_id, content)
      → store w.msg content mid ≡ ran (tt, stored)
      → stored.cells w.msg ≡ some content
      → take_request types rcl s w mid
        ≡ scoped
            (from types.info (types.info_of (asked_goal content)))
            (answer_request types rcl request_id (asked_goal content) s)
            stored
  unfolding take_request ◌>>=◌ ◌>>◌
  request_taken rcl request_id content s mid stored w taken k here =
      rw (take_request, taken, ◌>>◌, ◌>>=◌, k, load_lem w.msg content stored here) refl

  idle_taken :
      (rcl : Rcl N) (s : Server N) (w : WrappedNativeMsg) (mid : Heap N)
      → rcl.taken ≡ none
      → take_request types rcl s w mid ≡ ran (s, mid)
  unfolding take_request
  idle_taken rcl s w mid e = rw (take_request, e) refl

  info_lem :
      (rcl : Rcl N) (request_id : RequestId) (uuid : Uuid) (s : Server N) (h mid last : Heap N)
      (i : WrappedNativeMsg)
      → IsOwned h s.result_msgs
      → rcl.goal_exists (info_content uuid) ≡ true
      → ((v : WrappedNativeMsg) → get uuid s.result_msgs ≡ some v → mid.cells v.msg ≡ h.cells v.msg)
      → Made (info_content uuid) mid i last
      → Runs
          (answer_request types rcl request_id uuid s i)
          last
          (λ after later. (after ≡ answered request_id uuid h.cells s) × Within i.msg last later)
  info_lem rcl request_id uuid s h mid last i owned known inside (dead, (live, (others, fresh))) =
      let found = λ (v : WrappedNativeMsg) (e : get uuid s.result_msgs ≡ some v).
        owned_alive h s.result_msgs v.msg owned (get_owners uuid s.result_msgs v e) in
      let at = λ (v : WrappedNativeMsg) (e : get uuid s.result_msgs ≡ some v).
        let d : v.msg ≢ i.msg = λ same. cc ((found v e).1, inside v e, ap mid.cells same, dead) in
        others v.msg d ∙ inside v e in
      (
        answered request_id uuid last.cells s,
        (
          last,
          (
            answer_lem rcl request_id uuid s i last known live
                (λ v e. ((found v e).0, at v e ∙ (found v e).1)),
            (
              answered_same request_id uuid last.cells h.cells s at,
              (λ q d. refl, ((info_content uuid, live), fresh)),
            ),
          ),
        ),
      )

  taken_lem :
      (rcl : Rcl N) (request_id : RequestId) (content : N) (s : Server N) (h mid : Heap N)
      (w : WrappedNativeMsg)
      → IsOwned h s.result_msgs
      → rcl.taken ≡ some (request_id, content)
      → rcl.goal_exists (info_content (asked_goal content)) ≡ true
      → Made types.request.create_msg h w mid
      → Runs (take_request types rcl s w) mid (λ after later.
        (after ≡ answered request_id (asked_goal content) h.cells s) × Within w.msg mid later)
  taken_lem rcl request_id content s h mid w owned taken known (dead, (live, (others, fresh))) =
      let uuid = asked_goal content in
      let (u, (stored, (k, (here, (there, stored_fresh))))) =
        store_lem w.msg content types.request.create_msg mid live fresh in
      let inside = λ (v : WrappedNativeMsg) (e : get uuid s.result_msgs ≡ some v).
        let d = kept_at h s uuid v w.msg owned e dead in there v.msg d ∙ others v.msg d in
      let (after, (later, (f, (same, (all_same, later_fresh))))) =
        scoped_lem (from types.info (types.info_of uuid))
          (answer_request types rcl request_id uuid s) (info_content uuid) stored
          (λ after. after ≡ answered request_id uuid h.cells s)
          (from_lem types.info (types.info_of uuid) stored stored_fresh)
          (λ i last made. info_lem rcl request_id uuid s h stored last i owned known inside made) in
      (
        after,
        (
          later,
          (
            request_taken rcl request_id content s mid stored w taken k here ∙ f,
            (
              same,
              (λ q d. all_same q ∙ there q d, ((content, all_same w.msg ∙ here), later_fresh)),
            ),
          ),
        ),
      )

  -- If rcl has no request, nothing is done.
  pub idle_lem :
      (rcl : Rcl N) (s : Server N) (h : Heap N)
      → IsFresh h
      → rcl.taken ≡ none
      → Runs (handle_result_request types rcl s) h (λ after later. (after ≡ s) × Same h later)
  unfolding handle_result_request
  idle_lem rcl s h fresh idle =
      scoped_lem (new types.request) (take_request types rcl s) types.request.create_msg h
        (λ after. after ≡ s) (new_lem types.request h fresh)
        (λ w mid made. (
          s,
          (
            mid,
            (
              idle_taken rcl s w mid idle,
              (refl, (λ q d. refl, ((types.request.create_msg, made.1.0), made.1.1.1))),
            ),
          ),
        ))

  -- The request is taken from rcl and answered by `answered`, for a goal that exists.
  pub request_lem :
      (rcl : Rcl N) (request_id : RequestId) (content : N) (s : Server N) (h : Heap N)
      → IsOwned h s.result_msgs
      → rcl.taken ≡ some (request_id, content)
      → rcl.goal_exists (info_content (asked_goal content)) ≡ true
      → Runs (handle_result_request types rcl s) h (λ after later.
        (after ≡ answered request_id (asked_goal content) h.cells s) × Same h later)
  unfolding handle_result_request
  request_lem rcl request_id content s h (owned, fresh) taken known =
      scoped_lem (new types.request) (take_request types rcl s) types.request.create_msg h
        (λ after. after ≡ answered request_id (asked_goal content) h.cells s)
        (new_lem types.request h fresh)
        (λ w mid made. taken_lem rcl request_id content s h mid w (owned, fresh) taken known made)

  -- For a goal that does not exist, the run is undefined.
  pub unknown_request_lem :
      (rcl : Rcl N) (request_id : RequestId) (content : N) (s : Server N) (h : Heap N)
      → IsFresh h
      → rcl.taken ≡ some (request_id, content)
      → rcl.goal_exists (info_content (asked_goal content)) ≡ false
      → handle_result_request types rcl s h ≡ fault
  unfolding handle_result_request
  unknown_request_lem rcl request_id content s h fresh taken unknown =
      let uuid = asked_goal content in
      let (w, (mid, (e, (dead, (live, (others, mid_fresh)))))) = new_lem types.request h fresh in
      let (u, (stored, (k, (here, (there, stored_fresh))))) =
        store_lem w.msg content types.request.create_msg mid live mid_fresh in
      let (i, (last, (f, (gone, (there_live, (rest, last_fresh)))))) =
        from_lem types.info (types.info_of uuid) stored stored_fresh in
      scoped_fault (new types.request) (take_request types rcl s) h mid w e (
        request_taken rcl request_id content s mid stored w taken k here
        ∙ scoped_fault (from types.info (types.info_of uuid))
            (answer_request types rcl request_id uuid s) stored last i f
            (unknown_lem rcl request_id uuid s i last last_fresh unknown there_live))
