-- ===== src/ActionServer/Cancels/Frames.antt =====
-- What offering and canceling goals leave as it is: src/action_servers.rs.
use r2r.Prelude.{suc, ◌≡◌, inl, inr, refl, List, [], ◌∷◌, arith, Option-cases}
use r2r.ActionMsgs.{Uuid, GoalInfo}
use r2r.ActionServer.{offer_cancel, Env, WrappedActionServer}
use r2r.ActionServer.Goals.{cancel_goal}
use r2r.ActionServer.Cancels.{cancel_goals, offer_cancels}

module _ {G F O : Type 0} (env : Env G F O) where
  -- Offering goals to their owners makes channels and calls, and nothing else.
  pub offer_cancels_lem :
      (gs : List GoalInfo) (s : WrappedActionServer G F O)
      → let t = (offer_cancels env gs s).1 in
        t ≡ record s { next_channel = t.next_channel; calls = t.calls }
  unfolding offer_cancels
  offer_cancels_lem [] s = refl
  offer_cancels_lem (g ∷ gs) s = elim (Option-cases (s.cancel_senders g.goal_id)) [
    | inl e ↦ rw (e, offer_cancels) (offer_cancels_lem gs s)
    | inr (sender, e) ↦
        rw (e, offer_cancels)
          (offer_cancels_lem gs (record s {
            next_channel = suc s.next_channel;
            calls = offer_cancel sender g.goal_id s.next_channel ∷ s.calls;
          }))
  ]

  -- Canceling goals takes handles away and makes calls, and nothing else.
  pub cancel_goals_lem :
      (uuids : List Uuid) (s : WrappedActionServer G F O)
      → let t = cancel_goals env uuids s in t ≡ record s { goals = t.goals; calls = t.calls }
  unfolding cancel_goals
  cancel_goals_lem [] s = refl
  cancel_goals_lem (u ∷ us) s = ground (arith, cancel_goals_lem us (cancel_goal env u s))
