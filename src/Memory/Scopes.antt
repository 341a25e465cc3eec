-- ===== src/Memory/Scopes.antt =====
-- What the operations on native memory of src/msg_types.rs do to the messages that are allocated.
use r2r.Prelude.{
  ℕ, suc, ◌≤◌, ◌≡◌, ◌≢◌, refl, sym, ◌∙◌, Option, none, some, true, ◌==◌, arith, Bool-cases, inl,
  inr,
}
use r2r.Prelude.Maps.{insert, remove}
use r2r.MsgTypes.{Typesupport}
use r2r.Memory.{
  Heap, ran, Cmd, ◌>>=◌, ◌>>◌, create, destroy, load, store, WrappedNativeMsg, new, from, drop_msg,
  scoped,
}

module _ {N : Type 0} where
  -- No address that is yet to be given out is allocated.
  abbrev pub IsFresh : Heap N → Type 0
  IsFresh h = (q : ℕ) → h.next ≤ q → h.cells q ≡ none

  -- The command ends, with a result and memory as `Q` says.
  abbrev pub Runs : {A : Type 0} → Cmd N A → Heap N → (A → Heap N → Type 0) → Type 0
  Runs {A} c h Q = (a : A) × ((later : Heap N) × ((c h ≡ ran (a, later)) × Q a later))

  pub runs_bind :
      {A B : Type 0} (c : Cmd N A) (f : A → Cmd N B) (h : Heap N) (P : A → Heap N → Type 0)
      (Q : B → Heap N → Type 0)
      → Runs c h P
      → ((a : A) (mid : Heap N) → P a mid → Runs (f a) mid Q)
      → Runs (c >>= f) h Q
  unfolding ◌>>=◌
  runs_bind c f h P Q (a, (mid, (e, p))) g =
      let (b, (later, (k, q))) = g a mid p in (b, (later, (rw (◌>>=◌, e) k, q)))

  pub load_lem : (p : ℕ) (n : N) (h : Heap N) → h.cells p ≡ some n → load p h ≡ ran (n, h)
  unfolding load
  load_lem p n h e = rw (load, e) refl

  -- The other addresses are as before, the address is allocated still.
  abbrev pub Within : ℕ → Heap N → Heap N → Type 0
  Within p h later =
      ((q : ℕ) → q ≢ p → later.cells q ≡ h.cells q)
      × (((n : N) × (later.cells p ≡ some n)) × IsFresh later)

  -- All addresses are as before.
  abbrev pub Same : Heap N → Heap N → Type 0
  Same h later = ((q : ℕ) → later.cells q ≡ h.cells q) × IsFresh later

  -- The message is at a new address, and holds the content.
  abbrev pub Made : N → Heap N → WrappedNativeMsg → Heap N → Type 0
  Made n h w later =
      (h.cells w.msg ≡ none)
      × ((later.cells w.msg ≡ some n)
          × (((q : ℕ) → q ≢ w.msg → later.cells q ≡ h.cells q) × IsFresh later))

  insert_here : (p : ℕ) (n : N) (cells : ℕ → Option N) → insert p n cells p ≡ some n
  insert_here p n cells = ground arith

  insert_there : (p q : ℕ) (n : N) (cells : ℕ → Option N) → q ≢ p → insert p n cells q ≡ cells q
  insert_there p q n cells h = elim (Bool-cases (p == q)) [
    | inl e ↦ absurd (h (ground (arith, e)))
    | inr e ↦ rw e refl
  ]

  remove_there : (p q : ℕ) (cells : ℕ → Option N) → q ≢ p → remove p cells q ≡ cells q
  remove_there p q cells h = elim (Bool-cases (p == q)) [
    | inl e ↦ absurd (h (ground (arith, e)))
    | inr e ↦ rw e refl
  ]

  -- An allocated address has been given out.
  unfresh : (h : Heap N) (p q : ℕ) (n : N) → IsFresh h → h.cells p ≡ some n → h.next ≤ q → q ≢ p
  unfresh h p q n fresh e le same = let gone = fresh p (rw same at le) in cc (e, gone)

  pub store_lem :
      (p : ℕ) (n old : N) (h : Heap N)
      → h.cells p ≡ some old
      → IsFresh h
      → Runs (store p n) h (λ u later.
        (later.cells p ≡ some n) × (((q : ℕ) → q ≢ p → later.cells q ≡ h.cells q) × IsFresh later))
  unfolding store
  store_lem p n old h e fresh = (
    tt,
    (
      record h { cells = insert p n h.cells },
      (
        rw (store, e) refl,
        (
          insert_here p n h.cells,
          (
            λ q d. insert_there p q n h.cells d,
            λ q le. insert_there p q n h.cells (unfresh h p q old fresh e le) ∙ fresh q le,
          ),
        ),
      ),
    ),
  )

  pub destroy_lem :
      (p : ℕ) (n : N) (h : Heap N)
      → h.cells p ≡ some n
      → IsFresh h
      → Runs (destroy p) h (λ u later.
        (later.cells p ≡ none) × (((q : ℕ) → q ≢ p → later.cells q ≡ h.cells q) × IsFresh later))
  unfolding destroy
  destroy_lem p n h e fresh = (
    tt,
    (
      record h { cells = remove p h.cells },
      (
        rw (destroy, e) refl,
        (
          ground arith,
          (
            λ q d. remove_there p q h.cells d,
            λ q le. remove_there p q h.cells (unfresh h p q n fresh e le) ∙ fresh q le,
          ),
        ),
      ),
    ),
  )

  module _ {Json T : Type 0} (ts : Typesupport N Json T) where
    pub new_lem : (h : Heap N) → IsFresh h → Runs (new ts) h (Made ts.create_msg h)
    unfolding new create ◌>>=◌
    new_lem h fresh = (
      record { msg = h.next },
      (
        record h { next = suc h.next; cells = insert h.next ts.create_msg h.cells },
        (
          refl,
          (
            fresh h.next (omega arith),
            (
              insert_here h.next ts.create_msg h.cells,
              (
                λ q d. insert_there h.next q ts.create_msg h.cells d,
                λ q le.
                    insert_there h.next q ts.create_msg h.cells (λ e. omega (arith, e, le))
                    ∙ fresh q (omega arith),
              ),
            ),
          ),
        ),
      ),
    )

    pub from_lem :
        (value : T) (h : Heap N)
        → IsFresh h
        → Runs (from ts value) h (Made (ts.copy_to_native value ts.create_msg) h)
    unfolding new create load store from ◌>>=◌ ◌>>◌
    from_lem value h fresh =
        let content = ts.copy_to_native value ts.create_msg in
        let cells = insert h.next ts.create_msg h.cells in
        let same : (h.next == h.next) ≡ true = ground arith in
        let mid = record h { next = suc h.next; cells = cells } in
        let loaded : load h.next mid ≡ ran (ts.create_msg, mid) = rw (load, same) refl in
        let stored : store h.next content mid
            ≡ ran (tt, record mid { cells = insert h.next content cells }) =
          rw (store, same) refl in
        (
          record { msg = h.next },
          (
            record h { next = suc h.next; cells = insert h.next content cells },
            (
              rw (from, ◌>>=◌, loaded, ◌>>◌, stored) refl,
              (
                fresh h.next (omega arith),
                (
                  insert_here h.next content cells,
                  (
                    λ q d.
                        insert_there h.next q content cells d
                        ∙ insert_there h.next q ts.create_msg h.cells d,
                    λ q le.
                        let d : q ≢ h.next = λ e. omega (arith, e, le) in
                        insert_there h.next q content cells d
                        ∙ (insert_there h.next q ts.create_msg h.cells d ∙ fresh q (omega arith)),
                  ),
                ),
              ),
            ),
          ),
        )

  -- A scope whose body leaves all other messages as they are leaves all messages as they are: its
  -- own is allocated, and destroyed once.
  pub scoped_lem :
      {A : Type 0} (make : Cmd N WrappedNativeMsg) (body : WrappedNativeMsg → Cmd N A) (n : N)
      (h : Heap N) (P : A → Type 0)
      → Runs make h (Made n h)
      → ((w : WrappedNativeMsg) (mid : Heap N)
          → Made n h w mid
          → Runs (body w) mid (λ a later. P a × Within w.msg mid later))
      → Runs (scoped make body) h (λ a later. P a × Same h later)
  unfolding scoped drop_msg ◌>>=◌ ◌>>◌
  scoped_lem make body n h P (w, (mid, (e, (dead, (live, (others, mid_fresh)))))) run =
      let (a, (end, (f, (p, (kept, ((m, still), end_fresh)))))) =
        run w mid (dead, (live, (others, mid_fresh))) in
      let (u, (later, (k, (gone, (rest, later_fresh))))) =
        destroy_lem w.msg m end still end_fresh in
      (
        a,
        (
          later,
          (
            rw (scoped, ◌>>=◌, ◌>>◌, drop_msg, e, f, k) refl,
            (
              p,
              (
                λ q. elim (Bool-cases (q == w.msg)) [
                  | inl same ↦ let d : q ≡ w.msg = ground (arith, same) in rw d (gone ∙ sym dead)
                  | inr other ↦
                      let d : q ≢ w.msg = ground (arith, other) in
                      rest q d ∙ (kept q d ∙ others q d)
                ],
                later_fresh,
              ),
            ),
          ),
        ),
      )
