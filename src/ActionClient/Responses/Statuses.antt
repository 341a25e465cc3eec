-- ===== src/ActionClient/Responses/Statuses.antt =====
-- What a status message does to the statuses that an action client of src/action_clients.rs knows.
use r2r.Prelude.{
  ℕ, ◌≡◌, inl, inr, List, [], ◌∷◌, Option, none, some, true, false, arith, if◌then◌else◌, ◌==◌, any,
  Bool-cases, Option-cases, ==_iff,
}
use r2r.Prelude.Maps.{HashMap, insert}
use r2r.GoalStatus.{GoalStatus, from_rcl}
use r2r.ActionMsgs.{Uuid}
use r2r.Polling.{Channel}
use r2r.Pending.{Pending, has_key}
use r2r.ActionClient.Responses.{record_statuses}

-- The last number that a status message has for a goal.
abbrev pub latest : Uuid → List (Uuid × ℕ) → Option ℕ
latest uuid [] = none
latest uuid ((u, number) ∷ rest) = elim (latest uuid rest) [
  | none ↦ if u == uuid then some number else none
  | some n ↦ some n
]

-- What a status message makes of the status of a goal.
abbrev pub updated : Option ℕ → Option GoalStatus → Option GoalStatus
updated none old = old
updated (some number) old = from_rcl number

-- A status message that is read to its end sets the status of each goal whose result is awaited to
-- the last one that it has for it, and changes the status of no other goal.
pub record_statuses_lem :
    (senders : Pending Channel) (statuses : List (Uuid × ℕ)) (known known' : HashMap GoalStatus)
    → record_statuses senders statuses known ≡ some known'
    → (q : Uuid)
    → known' q
      ≡ (if any (has_key q) senders then updated (latest q statuses) (known q) else known q)
unfolding record_statuses
record_statuses_lem senders [] known known' e q = ground arith
record_statuses_lem senders ((uuid, number) ∷ rest) known known' e q =
    elim (Bool-cases (any (has_key uuid) senders)) [
      | inr unawaited ↦
          let ih = record_statuses_lem senders rest known known' (ground (arith, unawaited)) q in
          elim (Bool-cases (uuid == q)) [
            | inl same ↦
                let none_here : any (has_key q) senders ≡ false =
                  rw (← (==_iff uuid q).0 same) unawaited in
                ground (arith, ih, none_here)
            | inr other ↦ ground (arith, ih, other)
          ]
      | inl awaited ↦ elim (Option-cases (from_rcl number)) [
        | inl bad ↦ ground (arith, awaited, bad)
        | inr (status, good) ↦
            let ih =
              record_statuses_lem senders rest (insert uuid status known) known'
                (ground (arith, awaited, good)) q in
            elim (Bool-cases (uuid == q)) [
              | inl same ↦
                  let awaited_here : any (has_key q) senders ≡ true =
                    rw (← (==_iff uuid q).0 same) awaited in
                  ground (arith, ih, same, good, awaited_here)
              | inr other ↦ ground (arith, ih, other)
            ]
      ]
    ]
