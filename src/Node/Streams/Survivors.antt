-- ===== src/Node/Streams/Survivors.antt =====
-- Which streams of src/nodes.rs are left after `spin_once` served them.
use r2r.Prelude.{
  ℕ, ◌≡◌, ◌≢◌, refl, ◌∙◌, List, [], ◌∷◌, Bool, true, false, arith, if◌then◌else◌, not, any, retain,
  All, All-mono, All-zip, All-everywhere, Bool-cases, inl, inr,
}
use r2r.Node.{Stream}
use r2r.Node.Streams.{handle_ready, contains, serve}

contains_own : (xs : List ℕ) → All (λ h. contains xs h ≡ true) xs
unfolding any
contains_own [] = tt
contains_own (x ∷ xs) = (ground arith, All-mono xs (λ h e. ground (arith, e)) (contains_own xs))

contains-null : (xs : List ℕ) (h : ℕ) → All (λ x. x ≡ 0) xs → h ≢ 0 → contains xs h ≡ false
unfolding any
contains-null [] h zeros live = refl
contains-null (x ∷ xs) h (z, zeros) live = ground (arith, contains-null xs h zeros live)

module _ {S : Type 0} (t : Stream S) where
  -- The streams that are left if each that is ready is served, and dropped exactly if it asks for
  -- it.
  abbrev pub survivors : List S → List Bool → List S
  survivors [] ready = []
  survivors (s ∷ ss) [] = s ∷ ss
  survivors (s ∷ ss) (ready ∷ rs) =
      let rest = survivors ss rs in
      let (dropped, s') = t.handle_incoming s in
      if ready then (if dropped then rest else s' ∷ rest) else s ∷ rest

  -- No two streams have the same handle.
  abbrev pub Distinct : List S → Type 0
  Distinct [] = Unit
  Distinct (s ∷ ss) = All (λ s'. t.handle s' ≢ t.handle s) ss × Distinct ss

  -- `retain`, on what the loop left, removing the handles in `removed`.
  abbrev kept : List ℕ → List S → List S
  kept removed = retain (λ s. not (contains removed (t.handle s)))

  kept-All :
      (removed : List ℕ) (ss : List S)
      → All (λ s. contains removed (t.handle s) ≡ false) ss
      → kept removed ss ≡ ss
  unfolding retain
  kept-All removed [] live = refl
  kept-All removed (s ∷ ss) (free, live) = ground (arith, kept-All removed ss live)

  module _ (keeps : (s : S) → t.handle (t.handle_incoming s).1 ≡ t.handle s) where
    kept-handle_ready :
        (removed : List ℕ) (ss : List S) (ready : List Bool)
        → All (λ s. contains removed (t.handle s) ≡ false) ss
        → All (λ h. contains removed h ≡ true) (handle_ready t ss ready).1
        → kept removed (handle_ready t ss ready).0 ≡ survivors ss ready
    unfolding handle_ready retain
    kept-handle_ready removed [] ready live marked = refl
    kept-handle_ready removed (s ∷ ss) [] live marked = kept-All removed (s ∷ ss) live
    kept-handle_ready removed (s ∷ ss) (false ∷ rs) (free, live) marked =
        ground (arith, kept-handle_ready removed ss rs live marked)
    kept-handle_ready removed (s ∷ ss) (true ∷ rs) (free, live) marked =
        elim (Bool-cases (t.handle_incoming s).0) [
          | inl e ↦
              let (here, there) : (contains removed (t.handle (t.destroy (t.handle_incoming s).1))
                    ≡ true)
                  × All (λ h. contains removed h ≡ true) (handle_ready t ss rs).1 =
                rw e at marked in
              ground (arith, e, here, kept-handle_ready removed ss rs live there)
          | inr e ↦
              let there : All (λ h. contains removed h ≡ true) (handle_ready t ss rs).1 =
                rw e at marked in
              ground (arith, e, free, keeps s, kept-handle_ready removed ss rs live there)
        ]

    All-null :
        (ss : List S) (ready : List Bool)
        → ((s : S) → t.handle (t.destroy s) ≡ 0)
        → All (λ h. h ≡ 0) (handle_ready t ss ready).1
    unfolding handle_ready
    All-null [] ready null = tt
    All-null (s ∷ ss) [] null = tt
    All-null (s ∷ ss) (false ∷ rs) null = All-null ss rs null
    All-null (s ∷ ss) (true ∷ rs) null = elim (Bool-cases (t.handle_incoming s).0) [
      | inl e ↦ rw e (null _, All-null ss rs null)
      | inr e ↦ rw e (All-null ss rs null)
    ]

    -- If a destroyed stream has the null handle, and no other stream has, then what is left are
    -- the streams, in order, without exactly those that were ready and whose receiver is gone.
    pub serve_finalized :
        (ss : List S) (ready : List Bool)
        → ((s : S) → t.handle (t.destroy s) ≡ 0)
        → All (λ s. t.handle s ≢ 0) ss
        → serve t ss ready ≡ survivors ss ready
    unfolding serve
    serve_finalized ss ready null live =
        let removed = (handle_ready t ss ready).1 in
        kept-handle_ready removed ss ready
          (All-mono ss (λ s. contains-null removed (t.handle s) (All-null ss ready null)) live)
          (contains_own removed)

    absent :
        (ss : List S) (ready : List Bool) (h : ℕ)
        → ((s : S) → t.handle (t.destroy s) ≡ t.handle s)
        → All (λ s. t.handle s ≢ h) ss
        → contains (handle_ready t ss ready).1 h ≡ false
    unfolding handle_ready any
    absent [] ready h same others = refl
    absent (s ∷ ss) [] h same others = refl
    absent (s ∷ ss) (ready ∷ rs) h same (other, others) =
        ground (arith, keeps s, same (t.handle_incoming s).1, absent ss rs h same others)

    kept-Distinct :
        (removed : List ℕ) (ss : List S) (ready : List Bool)
        → ((s : S) → t.handle (t.destroy s) ≡ t.handle s)
        → Distinct ss
        → All
            (λ s. contains removed (t.handle s) ≡ contains (handle_ready t ss ready).1 (t.handle s))
            ss
        → kept removed (handle_ready t ss ready).0 ≡ survivors ss ready
    unfolding handle_ready retain any
    kept-Distinct removed [] ready same distinct marked = refl
    kept-Distinct removed (s ∷ ss) [] same distinct marked = kept-All removed (s ∷ ss) marked
    kept-Distinct removed (s ∷ ss) (false ∷ rs) same (others, distinct) (mark, marked) = ground (
      arith,
      mark,
      absent ss rs (t.handle s) same others,
      kept-Distinct removed ss rs same distinct marked,
    )
    kept-Distinct removed (s ∷ ss) (true ∷ rs) same (others, distinct) (mark, marked) =
        elim (Bool-cases (t.handle_incoming s).0) [
          | inl e ↦
              let s' = (t.handle_incoming s).1 in
              let rest = (handle_ready t ss rs).1 in
              let own : t.handle (t.destroy s') ≡ t.handle s = same s' ∙ keeps s in
              let seen : All
                  (λ a.
                    contains removed (t.handle a)
                    ≡ contains (t.handle (t.destroy s') ∷ rest) (t.handle a))
                  ss =
                rw e at marked in
              let there : All (λ a. contains removed (t.handle a) ≡ contains rest (t.handle a)) ss =
                All-zip ss (λ a (n : t.handle a ≢ t.handle s) m. ground (arith, m, own, n)) others
                  seen in
              ground (arith, e, mark, own, kept-Distinct removed ss rs same distinct there)
          | inr e ↦
              let there : All
                  (λ a.
                    contains removed (t.handle a) ≡ contains (handle_ready t ss rs).1 (t.handle a))
                  ss =
                rw e at marked in
              ground (
                arith,
                e,
                keeps s,
                mark,
                absent ss rs (t.handle s) same others,
                kept-Distinct removed ss rs same distinct there,
              )
        ]

    -- If no two streams have the same handle, and `destroy` keeps it, then what is left are the
    -- streams, in order, without exactly those that were ready and whose receiver is gone.
    pub serve-Distinct :
        (ss : List S) (ready : List Bool)
        → ((s : S) → t.handle (t.destroy s) ≡ t.handle s)
        → Distinct ss
        → serve t ss ready ≡ survivors ss ready
    unfolding serve
    serve-Distinct ss ready null live =
        kept-Distinct (handle_ready t ss ready).1 ss ready null live (All-everywhere ss (λ s. refl))
