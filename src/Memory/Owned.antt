-- ===== src/Memory/Owned.antt =====
-- Who owns the native messages of an action server, src/action_servers.rs.
use r2r.Prelude.{
  ℕ, ◌+◌, ◌≤◌, ◌≡◌, ◌≢◌, refl, sym, ◌∙◌, ap, List, [], ◌∷◌, Option, none, some, Option-cases, true,
  ◌==◌, if◌then◌else◌, arith, Bool-cases, inl, inr,
}
use r2r.Prelude.Maps.{remove}
use r2r.ActionMsgs.{Uuid, RequestId}
use r2r.Memory.{Heap, ran, ◌>>=◌, ◌>>◌, load, WrappedNativeMsg, drop_msg}
use r2r.Memory.Scopes.{IsFresh, Runs, load_lem, destroy_lem}
use r2r.Memory.Results.{
  ResultMsgs, get, insert_msg, Server, send_result_response, send_all, drop_replaced, add_result,
}

abbrev pub alive : {N : Type 0} → Option N → ℕ
alive none = 0
alive (some n) = 1

abbrev pub is_at : ℕ → WrappedNativeMsg → ℕ
is_at p w = if w.msg == p then 1 else 0

abbrev pub owners : ℕ → ResultMsgs → ℕ
owners p [] = 0
owners p ((u, w) ∷ msgs) = is_at p w + owners p msgs

abbrev dropped : ℕ → Option WrappedNativeMsg → ℕ
dropped p none = 0
dropped p (some w) = is_at p w

-- A message is allocated at an address if and only if one result of the server is there; no address
-- that is yet to be given out is allocated.
abbrev pub IsOwned : {N : Type 0} → Heap N → ResultMsgs → Type 0
IsOwned h msgs = ((p : ℕ) → alive (h.cells p) ≡ owners p msgs) × IsFresh h

insert_owners :
    (uuid : Uuid) (w : WrappedNativeMsg) (msgs : ResultMsgs) (p : ℕ)
    → owners p (insert_msg uuid w msgs).1 + dropped p (insert_msg uuid w msgs).0
      ≡ is_at p w + owners p msgs
unfolding insert_msg
insert_owners uuid w [] p = omega arith
insert_owners uuid w ((u, old) ∷ msgs) p =
    let ih = insert_owners uuid w msgs p in
    elim (Bool-cases (u == uuid)) [
      | inl e ↦ rw (insert_msg, e) (omega arith)
      | inr e ↦ rw (insert_msg, e) (omega (arith, ih))
    ]

pub get_owners :
    (uuid : Uuid) (msgs : ResultMsgs) (w : WrappedNativeMsg)
    → get uuid msgs ≡ some w
    → 1 ≤ owners w.msg msgs
get_owners uuid [] w e = cc
get_owners uuid ((u, v) ∷ msgs) w e = elim (Bool-cases (u == uuid)) [
  | inl c ↦
      let d : v ≡ w = cc (rw c at e) in
      let at : (v.msg == w.msg) ≡ true = rw d (ground arith) in rw at (omega arith)
  | inr c ↦ let ih = get_owners uuid msgs w (rw c at e) in omega (arith, ih)
]

module _ {N : Type 0} where
  pub owned_alive :
      (h : Heap N) (msgs : ResultMsgs) (p : ℕ)
      → IsOwned h msgs
      → 1 ≤ owners p msgs
      → (n : N) × (h.cells p ≡ some n)
  owned_alive h msgs p (owned, fresh) le =
      let o = owned p in
      elim (Option-cases (h.cells p)) [
        | inl e ↦ absurd (omega (arith, rw e at o, le))
        | inr live ↦ live
      ]

  alive_le : (o : Option N) → alive o ≤ 1
  alive_le none = omega arith
  alive_le (some n) = omega arith

  -- A destroyed message, as the count of its owners goes down.
  pub destroy-IsOwned :
      (h : Heap N) (msgs left : ResultMsgs) (w : WrappedNativeMsg)
      → IsOwned h msgs
      → ((p : ℕ) → owners p left + is_at p w ≡ owners p msgs)
      → Runs (drop_msg w) h (λ u later. IsOwned later left)
  unfolding drop_msg
  destroy-IsOwned h msgs left w (owned, fresh) counted =
      let here : (w.msg == w.msg) ≡ true = ground arith in
      let one = rw here at (counted w.msg) in
      let (n, live) = owned_alive h msgs w.msg (owned, fresh) (omega (arith, one)) in
      let (u, (later, (k, (gone, (others, later_fresh))))) = destroy_lem w.msg n h live fresh in
      (
        u,
        (
          later,
          (
            k,
            (
              λ p.
                  let c = counted p in
                  let o = owned p in
                  let le = alive_le (h.cells p) in
                  elim (Bool-cases (w.msg == p)) [
                    | inl e ↦
                        let d : w.msg ≡ p = ground (arith, e) in
                        ap alive (ap later.cells (sym d) ∙ gone) ∙ omega (arith, rw e at c, o, le)
                    | inr e ↦
                        let d : p ≢ w.msg = ground (arith, e) in
                        ap alive (others p d) ∙ omega (arith, rw e at c, o)
                  ],
              later_fresh,
            ),
          ),
        ),
      )

  drop_replaced-IsOwned :
      (h : Heap N) (msgs left : ResultMsgs) (r : Option WrappedNativeMsg)
      → IsOwned h msgs
      → ((p : ℕ) → owners p left + dropped p r ≡ owners p msgs)
      → Runs (drop_replaced r) h (λ u later. IsOwned later left)
  unfolding drop_replaced
  drop_replaced-IsOwned h msgs left none (owned, fresh) counted =
      (tt, (h, (refl, (λ p. owned p ∙ omega (arith, counted p), fresh))))
  drop_replaced-IsOwned h msgs left (some w) owned counted =
      destroy-IsOwned h msgs left w owned counted

  -- The responses to the requests of a list, the last first.
  abbrev pub responses : List RequestId → N → List (RequestId × N) → List (RequestId × N)
  responses [] n sent = sent
  responses (req ∷ rr) n sent = responses rr n ((req, n) ∷ sent)

  pub send_lem :
      (req : RequestId) (p : ℕ) (n : N) (s : Server N) (h : Heap N)
      → h.cells p ≡ some n
      → send_result_response req p s h ≡ ran (record s { sent = (req, n) ∷ s.sent }, h)
  unfolding send_result_response load ◌>>=◌
  send_lem req p n s h e = rw (send_result_response, load_lem p n h e, ◌>>=◌) refl

  send_all_lem :
      (rr : List RequestId) (p : ℕ) (n : N) (s : Server N) (h : Heap N)
      → h.cells p ≡ some n
      → send_all rr p s h ≡ ran (record s { sent = responses rr n s.sent }, h)
  unfolding send_all ◌>>=◌
  send_all_lem [] p n s h e = refl
  send_all_lem (req ∷ rr) p n s h e =
      rw (send_all, ◌>>=◌, send_lem req p n s h e)
        (send_all_lem rr p n (record s { sent = (req, n) ∷ s.sent }) h e)

  -- The server with a result: the requests that wait for it are answered with the content `n`.
  abbrev pub added : Uuid → WrappedNativeMsg → N → Server N → Server N
  added uuid w n s = elim (s.result_requests uuid) [
    | none ↦ record s { result_msgs = (insert_msg uuid w s.result_msgs).1 }
    | some rr ↦ record s {
      result_msgs = (insert_msg uuid w s.result_msgs).1;
      result_requests = remove uuid s.result_requests;
      sent = responses rr n s.sent;
    }
  ]

  pub add_result-IsOwned :
      (uuid : Uuid) (w : WrappedNativeMsg) (n : N) (s : Server N) (h : Heap N)
      → IsOwned h ((uuid, w) ∷ s.result_msgs)
      → h.cells w.msg ≡ some n
      → Runs (add_result uuid w s) h (λ after later.
        (after ≡ added uuid w n s) × IsOwned later (insert_msg uuid w s.result_msgs).1)
  unfolding add_result ◌>>=◌ ◌>>◌
  add_result-IsOwned uuid w n s h owned live =
      let (replaced, msgs) = insert_msg uuid w s.result_msgs in
      let (u, (later, (k, left))) =
        drop_replaced-IsOwned h ((uuid, w) ∷ s.result_msgs) msgs replaced owned
          (insert_owners uuid w s.result_msgs) in
      elim (Option-cases (s.result_requests uuid)) [
        | inl e ↦ (
          record s { result_msgs = msgs },
          (later, (rw (add_result, ◌>>=◌, ◌>>◌, e, k) refl, (rw (added, e) refl, left))),
        )
        | inr (rr, e) ↦ (
          record s {
            result_msgs = msgs;
            result_requests = remove uuid s.result_requests;
            sent = responses rr n s.sent;
          },
          (
            later,
            (
              rw
                  (
                    add_result,
                    ◌>>=◌,
                    ◌>>◌,
                    e,
                    send_all_lem rr w.msg n
                        (record s { result_requests = remove uuid s.result_requests }) h live,
                    k,
                  )
                  refl,
              (rw (added, e) refl, left),
            ),
          ),
        )
      ]
