-- ===== src/ActionServer/Cancels/Verdicts.antt =====
-- What the answers to one cancel request come to: the loop of `send_completed_cancel_requests` in
-- src/action_servers.rs.
use r2r.Prelude.{
  ◌<◌, ◌≡◌, ◌≢◌, refl, sym, ap, ◌∙◌, List, [], ◌∷◌, map, Option, some, Bool, true, false, arith,
  if◌then◌else◌, ◌==◌, ◌&&◌, length, retain, leb, Bool-cases, inl, inr,
}
use r2r.ActionMsgs.{Uuid, GoalInfo, CancelResponse}
use r2r.ActionServer.Cancels.{tally, conclude, settle}

-- The answers of requests none of which was dropped.
abbrev pub answered : List (Uuid × Bool) → List (Option (Uuid × Bool))
answered = map some

-- The goals whose cancel requests were accepted.
abbrev pub accepted : List (Uuid × Bool) → List Uuid
accepted [] = []
accepted ((uuid, do_cancel) ∷ results) =
    if do_cancel then uuid ∷ accepted results else accepted results

-- Every answer accepts this goal.
abbrev pub unanimous : List (Uuid × Bool) → GoalInfo → Bool
unanimous [] goal_info = true
unanimous ((uuid, do_cancel) ∷ results) goal_info =
    (do_cancel && goal_info.goal_id == uuid) && unanimous results goal_info

retain-true {ℓ} : {A : Type ℓ} (xs : List A) → retain (λ _. true) xs ≡ xs
unfolding retain
retain-true [] = refl
retain-true (x ∷ xs) = ap (◌∷◌ x) (retain-true xs)

retain-retain {ℓ} :
    {A : Type ℓ} (p q : A → Bool) (xs : List A)
    → retain q (retain p xs) ≡ retain (λ x. p x && q x) xs
unfolding retain
retain-retain p q [] = refl
retain-retain p q (x ∷ xs) = ground (arith, retain-retain p q xs)

retain-false {ℓ} :
    {A : Type ℓ} (p : A → Bool) (xs : List A) → ((x : A) → p x ≡ false) → retain p xs ≡ []
unfolding retain
retain-false p [] h = refl
retain-false p (x ∷ xs) h = ground (arith, h x, retain-false p xs h)

tally-accepted :
    (results : List (Uuid × Bool)) (m : CancelResponse)
    → (tally (answered results) m).0 ≡ accepted results
unfolding tally
tally-accepted [] m = refl
tally-accepted ((uuid, true) ∷ results) m = ap (◌∷◌ uuid) (tally-accepted results _)
tally-accepted ((uuid, false) ∷ results) m = tally-accepted results _

tally-unanimous :
    (results : List (Uuid × Bool)) (m : CancelResponse)
    → (tally (answered results) m).1
      ≡ some (record m { goals_canceling = retain (unanimous results) m.goals_canceling })
unfolding tally
tally-unanimous [] m =
    ap (λ (gs : List GoalInfo). some (record m { goals_canceling = gs }))
      (sym (retain-true m.goals_canceling))
tally-unanimous ((uuid, do_cancel) ∷ results) m =
    tally-unanimous results _
    ∙ ap (λ (gs : List GoalInfo). some (record m { goals_canceling = gs }))
        (retain-retain (λ g. do_cancel && g.goal_id == uuid) (unanimous results) m.goals_canceling)

settle_concluded :
    (results : List (Uuid × Bool)) (m : CancelResponse)
    → settle (answered results) m ≡ (
      accepted results,
      some (
          conclude
            (length m.goals_canceling)
            (record m { goals_canceling = retain (unanimous results) m.goals_canceling })),
    )
unfolding settle
settle_concluded results m = ground (arith, tally-accepted results m, tally-unanimous results m)

-- With no dropped request, the goals to cancel are those that were accepted, in the order of the
-- answers, and the response lists a goal exactly if every answer accepts that very goal; its code
-- is 1, which is ERROR_REJECTED, if it listed goals and none is left, and otherwise as before.
pub settle-answered :
    (results : List (Uuid × Bool)) (m : CancelResponse)
    → let left = retain (unanimous results) m.goals_canceling in
      let rejected = leb 1 (length m.goals_canceling) && length left == 0 in
      settle (answered results) m ≡ (
        accepted results,
        some (record {
          return_code = if rejected then 1 else m.return_code;
          goals_canceling = left;
        }),
      )
unfolding conclude
settle-answered results m =
    let left = retain (unanimous results) m.goals_canceling in
    settle_concluded results m
    ∙ elim (Bool-cases (leb 1 (length m.goals_canceling) && length left == 0)) [
      | inl e ↦ ground (arith, e)
      | inr e ↦ ground (arith, e)
    ]

-- A request to cancel one goal: it is confirmed as it came if the goal's owner accepts, and turned
-- into a rejection that lists nothing if not.
pub settle_one :
    (m : CancelResponse) (goal_info : GoalInfo) (do_cancel : Bool)
    → m.goals_canceling ≡ goal_info ∷ []
    → settle (answered ((goal_info.goal_id, do_cancel) ∷ [])) m ≡ (
        if do_cancel
        then (goal_info.goal_id ∷ [], some m)
        else ([], some (record { return_code = 1; goals_canceling = [] })))
unfolding settle retain conclude
settle_one m g true e = ground (arith, settle_concluded ((g.goal_id, true) ∷ []) m)
settle_one m g false e = ground (arith, settle_concluded ((g.goal_id, false) ∷ []) m)

-- A request to cancel several goals, of which the first two to be answered are different and both
-- accepted: they are canceled, and so is every further one that was accepted, but the response is
-- a rejection that lists no goal.
pub settle_many :
    (m : CancelResponse) (u v : Uuid) (results : List (Uuid × Bool))
    → u ≢ v
    → 0 < length m.goals_canceling
    → settle (answered ((u, true) ∷ (v, true) ∷ results)) m
      ≡ (u ∷ v ∷ accepted results, some (record { return_code = 1; goals_canceling = [] }))
unfolding settle conclude
settle_many m u v results ne some_goal =
    settle_concluded ((u, true) ∷ (v, true) ∷ results) m
    ∙ ground (
      arith,
      retain-false (unanimous ((u, true) ∷ (v, true) ∷ results)) m.goals_canceling
          (λ g. ground arith),
    )

-- A request none of whose goals could be asked: nothing is canceled, and the response goes out as
-- rcl made it.
pub settle_none : (m : CancelResponse) → settle [] m ≡ ([], some m)
unfolding settle conclude tally
settle_none m = ground arith
