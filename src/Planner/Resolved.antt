-- ===== src/Planner/Resolved.antt =====
-- Which blockers are open and which are unknown, `resolveDeclaredBlockers` of
-- src/hubBatchPlannerCandidates.ts.
use mathlib.Core.Option.{some_inj}
use arch_loop.Prelude.{
  String, none, some, List, [], ◌∷◌, true, false, not, if◌then◌else◌, ◌==◌, keep_sound,
  keep_complete, eq_iff, ◌≡◌, ◌≢◌, refl, sym, ap, ◌∙◌, ◌↔◌, ◌⊎◌, ◌++◌, In, Bool-cases, Option-cases,
  inl, inr,
}
use arch_loop.Recovery.{HubTaskStatus, done, wontfix, is_completed, Task}
use arch_loop.Planner.Blockers.{
  Resolution, resolve_blocker, unique, add_blocker, resolve_each, no_blockers, resolve_declared,
}

unique-In : (xs : List String) (x : String) → In x (unique xs) ↔ In x xs
unfolding unique
unique-In [] x = (λ m. m, λ m. m)
unique-In (y ∷ xs) x = (
  λ m. elim m [
    | inl e ↦ inl e
    | inr n ↦ inr ((unique-In xs x).0 (keep_sound (λ z. not (z == y)) (unique xs) n).0)
  ],
  λ m. elim (Bool-cases (x == y)) [
    | inl same ↦ inl ((eq_iff x y).0 same)
    | inr other ↦ elim m [
      | inl e ↦ inl e
      | inr n ↦
          inr (keep_complete (λ z. not (z == y)) (unique xs) ((unique-In xs x).1 n) (ap not other))
    ]
  ],
)

-- The blocker is a task of the board that is neither done nor rejected.
pub record IsOpen (board : List Task) (ref : String) : Type 0 where
  pub task : Task
  pub found : resolve_blocker board ref ≡ some task
  pub not_done : task.hub_status ≢ done
  pub not_rejected : task.hub_status ≢ wontfix

is_completed-cases : (s : HubTaskStatus) → is_completed s ≡ true → (s ≡ done) ⊎ (s ≡ wontfix)
is_completed-cases done h = inl refl
is_completed-cases wontfix h = inr refl
is_completed-cases _ h = cc

not_completed : (s : HubTaskStatus) → is_completed s ≡ false → (s ≢ done) × (s ≢ wontfix)
not_completed s h = (λ e. cc (sym h ∙ ap is_completed e), λ e. cc (sym h ∙ ap is_completed e))

In-append_last : (xs : List String) (x y : String) → In x (xs ++ (y ∷ [])) ↔ (In x xs ⊎ (x ≡ y))
In-append_last [] x y = (
  λ m. elim m [ inl e ↦ inr e | inr n ↦ elim n [ ] ],
  λ m. elim m [ inl n ↦ elim n [ ] | inr e ↦ inl e ],
)
In-append_last (z ∷ xs) x y = (
  λ m. elim m [
    | inl e ↦ inl (inl e)
    | inr n ↦ elim ((In-append_last xs x y).0 n) [ inl k ↦ inl (inr k) | inr e ↦ inr e ]
  ],
  λ m. elim m [
    | inl (inl e) ↦ inl e
    | inl (inr k) ↦ inr ((In-append_last xs x y).1 (inl k))
    | inr e ↦ inr ((In-append_last xs x y).1 (inr e))
  ],
)

module _ (board : List Task) (x : String) where
  -- What a round of the loop adds to the open and to the unknown blockers.
  add_blocker-In :
      (ref : String) (r : Resolution)
      → let s = add_blocker ref (resolve_blocker board ref) r in
        (In x s.open_blockers ↔ (In x r.open_blockers ⊎ ((x ≡ ref) × IsOpen board x)))
        × (In x s.unknown_blockers
            ↔ (In x r.unknown_blockers ⊎ ((x ≡ ref) × (resolve_blocker board x ≡ none))))
  unfolding add_blocker
  add_blocker-In ref r = elim (Option-cases (resolve_blocker board ref)) [
    | inl missing ↦ rw missing (
      (
        λ m. inl m,
        λ m. elim m [
          | inl n ↦ n
          | inr (e, o) ↦ cc (sym missing ∙ ap (resolve_blocker board) (sym e) ∙ o.found)
        ],
      ),
      (
        λ m. elim ((In-append_last r.unknown_blockers x ref).0 m) [
          | inl n ↦ inl n
          | inr e ↦ inr (e, ap (resolve_blocker board) e ∙ missing)
        ],
        λ m.
            (In-append_last r.unknown_blockers x ref).1
              (elim m [ inl n ↦ inl n | inr (e, _) ↦ inr e ]),
      ),
    )
    | inr (t, found) ↦ rw found (
      open_round ref t r.open_blockers found,
      (
        λ m. inl m,
        λ m. elim m [
          | inl n ↦ n
          | inr (e, k) ↦ cc (sym found ∙ ap (resolve_blocker board) (sym e) ∙ k)
        ],
      ),
    )
  ]
    where
      open_round :
          (ref : String) (t : Task) (before : List String)
          → resolve_blocker board ref ≡ some t
          → In x (if is_completed t.hub_status then before else before ++ (ref ∷ []))
            ↔ (In x before ⊎ ((x ≡ ref) × IsOpen board x))
      open_round ref t before found = elim (Bool-cases (is_completed t.hub_status)) [
        | inl over ↦ rw over (
          λ m. inl m,
          λ m. elim m [
            | inl n ↦ n
            | inr (e, o) ↦
                let same : t ≡ o.task =
                  some_inj.0 (sym found ∙ ap (resolve_blocker board) (sym e) ∙ o.found) in
                absurd (elim (is_completed-cases t.hub_status over) [
                  | inl d ↦ o.not_done (ap (λ y. y.hub_status) (sym same) ∙ d)
                  | inr w ↦ o.not_rejected (ap (λ y. y.hub_status) (sym same) ∙ w)
                ])
          ],
        )
        | inr going ↦ rw going (
          λ m. elim ((In-append_last before x ref).0 m) [
            | inl n ↦ inl n
            | inr e ↦ inr (
              e,
              record {
                task = t;
                found = ap (resolve_blocker board) e ∙ found;
                not_done = (not_completed t.hub_status going).0;
                not_rejected = (not_completed t.hub_status going).1;
              },
            )
          ],
          λ m. (In-append_last before x ref).1 (elim m [ inl n ↦ inl n | inr (e, _) ↦ inr e ]),
        )
      ]

  resolve_each-In :
      (refs : List String) (r : Resolution)
      → let s = resolve_each board refs r in
        (In x s.open_blockers ↔ (In x r.open_blockers ⊎ (In x refs × IsOpen board x)))
        × (In x s.unknown_blockers
            ↔ (In x r.unknown_blockers ⊎ (In x refs × (resolve_blocker board x ≡ none))))
  unfolding resolve_each
  resolve_each-In [] r = (
    (λ m. inl m, λ m. elim m [ inl n ↦ n | inr (n, _) ↦ elim n [ ] ]),
    (λ m. inl m, λ m. elim m [ inl n ↦ n | inr (n, _) ↦ elim n [ ] ]),
  )
  resolve_each-In (ref ∷ refs) r =
      let first = add_blocker-In ref r in
      let later = resolve_each-In refs (add_blocker ref (resolve_blocker board ref) r) in
      (both first.0 later.0, both first.1 later.1)
    where
      both :
          {A B C D P : Type 0}
          → B ↔ (A ⊎ (C × P))
          → D ↔ (B ⊎ (In x refs × P))
          → D ↔ (A ⊎ ((C ⊎ In x refs) × P))
      both f g = (
        λ d. elim (g.0 d) [
          | inl b ↦ elim (f.0 b) [ inl a ↦ inl a | inr (c, p) ↦ inr (inl c, p) ]
          | inr (n, p) ↦ inr (inr n, p)
        ],
        λ m. elim m [
          | inl a ↦ g.1 (inl (f.1 (inl a)))
          | inr (inl c, p) ↦ g.1 (inl (f.1 (inr (c, p))))
          | inr (inr n, p) ↦ g.1 (inr (n, p))
        ],
      )

-- On a board that was loaded, the open blockers are the declared ones that name a task which is
-- neither done nor rejected, and the unknown blockers are the declared ones that name no task.
pub resolve_declared_lem :
    (refs : List String) (board : List Task) (ref : String)
    → let r = resolve_declared refs (some board) in
      (In ref r.open_blockers ↔ (In ref refs × IsOpen board ref))
      × (In ref r.unknown_blockers ↔ (In ref refs × (resolve_blocker board ref ≡ none)))
unfolding resolve_declared
resolve_declared_lem refs board ref =
    let s = resolve_each board refs no_blockers in
    let (opens, unknowns) = resolve_each-In board ref refs no_blockers in
    (listed s.open_blockers opens, listed s.unknown_blockers unknowns)
  where
    listed : {P : Type 0} (xs : List String) → In ref xs ↔ (In ref [] ⊎ P) → In ref (unique xs) ↔ P
    listed xs f = (
      λ m. elim (f.0 ((unique-In xs ref).0 m)) [ inl n ↦ elim n [ ] | inr p ↦ p ],
      λ p. (unique-In xs ref).1 (f.1 (inr p)),
    )
