-- ===== src/Polling/Outcomes.antt =====
-- What a poll for availability comes to.
use mathlib.Core.List.{map-append, append_assoc, reverse, reverse-cons}
use r2r.Prelude.{
  ℕ, zero, suc, ◌+◌, ◌<◌, ◌≡◌, refl, sym, ap, ◌∙◌, List, [], ◌∷◌, ◌++◌, map, Bool, true, false,
  arith, if◌then◌else◌, length, length-append, pop_cons,
}
use r2r.Errors.{Error, Result, ok, err, panic}
use r2r.Prelude.Counting.{count, count-append}
use r2r.Polling.{Channel, notify_all, drop_all, poll_channels}

module _ {C : Type 0} (notify drop : Channel → C) where
  map-snoc :
      (front : List Channel) (last : Channel) (calls : List C)
      → map notify (front ++ last ∷ []) ++ calls ≡ map notify front ++ notify last ∷ calls
  map-snoc front last calls = simp (map-append, append_assoc)

  -- With fuel for the last test, the loop empties the vector and sends to every channel, from the
  -- last to the first.
  pub notify_all_lem :
      (fuel : ℕ) (channels : List Channel) (calls : List C)
      → length channels < fuel
      → notify_all notify drop fuel channels calls ≡ ([], map notify channels ++ calls)
  unfolding notify_all
  notify_all_lem zero channels calls h = absurd (omega arith)
  notify_all_lem (suc fuel) [] calls h = refl
  notify_all_lem (suc fuel) (ch ∷ chs) calls h =
      let (last, front, e, s) = pop_cons ch chs in
      let rest =
        notify_all_lem fuel front (notify last ∷ calls)
          (omega (arith, ap length s, length-append front (last ∷ []))) in
      let total : map notify front ++ notify last ∷ calls ≡ map notify (ch ∷ chs) ++ calls =
        sym (map-snoc front last calls) ∙ ap (λ l. map notify l ++ calls) (sym s) in
      rw (e, notify_all) (rw total at rest)

  pub drop_all_lem :
      (channels : List Channel) (calls : List C)
      → drop_all notify drop channels calls ≡ reverse (map drop channels) ++ calls
  unfolding drop_all
  drop_all_lem [] calls = refl
  drop_all_lem (ch ∷ chs) calls =
      rw (drop_all_lem chs (drop ch ∷ calls), reverse-cons, append_assoc)

  -- If the other side is available everybody waiting is notified, once each and from the last to
  -- the first; if the query fails every waiting future is cancelled; in both cases nobody waits any
  -- longer. Otherwise all keep waiting, and no call is made.
  pub poll_channels_lem :
      (available : Bool) (e : Error) (channels : List Channel) (calls : List C)
      → (poll_channels notify drop (ok available) channels calls
          ≡ (if available then ([], map notify channels ++ calls) else (channels, calls)))
        × (poll_channels notify drop (err e) channels calls
            ≡ ([], reverse (map drop channels) ++ calls))
  unfolding poll_channels
  poll_channels_lem true e channels calls = (
    notify_all_lem (suc (length channels)) channels calls (omega arith),
    ap (λ (cs : List C). ([], cs)) (drop_all_lem channels calls),
  )
  poll_channels_lem false e channels calls =
      (refl, ap (λ (cs : List C). ([], cs)) (drop_all_lem channels calls))

-- `used` lists the channels whose senders a record of calls has used up.
module _ {C : Type 0} (notify drop : Channel → C) (used : List C → List Channel)
    (used_notify : (ch : Channel) (calls : List C) → used (notify ch ∷ calls) ≡ ch ∷ used calls)
    (used_drop : (ch : Channel) (calls : List C) → used (drop ch ∷ calls) ≡ ch ∷ used calls) where
  count-notify_all :
      (q : Channel) (fuel : ℕ) (channels : List Channel) (calls : List C)
      → let (left, calls') = notify_all notify drop fuel channels calls in
        count q left + count q (used calls') ≡ count q channels + count q (used calls)
  unfolding notify_all
  count-notify_all q zero channels calls = refl
  count-notify_all q (suc fuel) [] calls = refl
  count-notify_all q (suc fuel) (ch ∷ chs) calls =
      let (last, front, e, s) = pop_cons ch chs in
      rw (e, notify_all)
        (omega (
          arith,
          count-notify_all q fuel front (notify last ∷ calls),
          ap (count q) s,
          count-append q front (last ∷ []),
          ap (count q) (used_notify last calls),
        ))

  count-drop_all :
      (q : Channel) (channels : List Channel) (calls : List C)
      → count q (used (drop_all notify drop channels calls))
        ≡ count q channels + count q (used calls)
  unfolding drop_all
  count-drop_all q [] calls = omega arith
  count-drop_all q (ch ∷ chs) calls =
      omega (arith, count-drop_all q chs (drop ch ∷ calls), ap (count q) (used_drop ch calls))

  -- A poll uses up each channel that stops waiting, once, and no other.
  pub count-poll_channels :
      (q : Channel) (available : Result Bool) (channels : List Channel) (calls : List C)
      → let (left, calls') = poll_channels notify drop available channels calls in
        count q left + count q (used calls') ≡ count q channels + count q (used calls)
  unfolding poll_channels
  count-poll_channels q (ok true) channels calls =
      count-notify_all q (suc (length channels)) channels calls
  count-poll_channels q (ok false) channels calls = refl
  count-poll_channels q (err e) channels calls = omega (arith, count-drop_all q channels calls)
  count-poll_channels q panic channels calls = refl
