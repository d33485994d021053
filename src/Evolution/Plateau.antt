-- ===== src/Evolution/Plateau.antt =====
-- Which runs decide about a quality plateau.
use agentroll.Prelude.{
  ℕ, zero, suc, All-drop, ◌≤◌, ◌≡◌, refl, ◌∙◌, Bool, List, [], ◌∷◌, All, length, take, drop,
  filter_by, ltb, ltb→le, ltb→lt, arith, if-elim,
}
use agentroll.Kube.{AnalysisRun}
use agentroll.Evolution.Tuner.{is_successful}
use agentroll.Evolution.Upgrader.{insert_run, newest_first, newest_successful}

-- The runs of the list are no newer than this one.
abbrev pub NoNewer : AnalysisRun → List AnalysisRun → Type 0
NoNewer r runs = All (λ (s : AnalysisRun). s.created_at ≤ r.created_at) runs

abbrev pub Descends : List AnalysisRun → Type 0
Descends [] = Unit
Descends (r ∷ runs) = NoNewer r runs × Descends runs

NoNewer-older :
    (r t : AnalysisRun) (runs : List AnalysisRun)
    → r.created_at ≤ t.created_at
    → NoNewer r runs
    → NoNewer t runs
NoNewer-older r t [] h _ = tt
NoNewer-older r t (s ∷ runs) h (p, ps) = (omega arith, NoNewer-older r t runs h ps)

insert_run-NoNewer :
    (r run : AnalysisRun) (runs : List AnalysisRun)
    → run.created_at ≤ r.created_at
    → NoNewer r runs
    → NoNewer r (insert_run run runs)
unfolding insert_run
insert_run-NoNewer r run [] h _ = (h, tt)
insert_run-NoNewer r run (s ∷ runs) h (p, ps) =
    if-elim (NoNewer r) (ltb run.created_at s.created_at) _ _
      (λ _. (p, insert_run-NoNewer r run runs h ps)) (λ _. (h, (p, ps)))

insert_run-Descends :
    (run : AnalysisRun) (runs : List AnalysisRun) → Descends runs → Descends (insert_run run runs)
unfolding insert_run
insert_run-Descends run [] _ = (tt, tt)
insert_run-Descends run (r ∷ runs) (p, ps) =
    if-elim Descends (ltb run.created_at r.created_at) _ _
      (λ e. (
        insert_run-NoNewer r run runs (omega (arith, ltb→lt run.created_at r.created_at e)) p,
        insert_run-Descends run runs ps,
      ))
      (λ e.
        let le = ltb→le run.created_at r.created_at e in
        ((le, NoNewer-older r run runs le p), (p, ps)))

newest_first-Descends : (runs : List AnalysisRun) → Descends (newest_first runs)
unfolding newest_first
newest_first-Descends [] = tt
newest_first-Descends (run ∷ runs) =
    insert_run-Descends run (newest_first runs) (newest_first-Descends runs)

count-insert_run :
    (p : AnalysisRun → Bool) (run : AnalysisRun) (runs : List AnalysisRun)
    → length (filter_by p (insert_run run runs)) ≡ length (filter_by p (run ∷ runs))
unfolding insert_run filter_by
count-insert_run p run [] = refl
count-insert_run p run (r ∷ runs) = ground (arith, count-insert_run p run runs)

count-newest_first :
    (p : AnalysisRun → Bool) (runs : List AnalysisRun)
    → length (filter_by p (newest_first runs)) ≡ length (filter_by p runs)
unfolding newest_first filter_by
count-newest_first p [] = refl
count-newest_first p (run ∷ runs) =
    count-insert_run p run (newest_first runs) ∙ ground (arith, count-newest_first p runs)

-- The runs after the first `n` are no newer than any of those.
rest-NoNewer :
    (n : ℕ) (runs : List AnalysisRun)
    → Descends runs
    → All (λ r. NoNewer r (drop n runs)) (take n runs)
rest-NoNewer zero runs h = tt
rest-NoNewer (suc n) [] _ = tt
rest-NoNewer (suc n) (r ∷ runs) (p, ps) = (All-drop _ n runs p, rest-NoNewer n runs ps)

-- The runs that `runs` are sorted into hold each of them once, whatever the test; the runs that decide
-- about a plateau are the first `n` of them, and no run that passed and was left out is newer than one
-- that decides.
newest_successful-newest :
    (n : ℕ) (runs : List AnalysisRun)
    → ((p : AnalysisRun → Bool)
        → length (filter_by p (newest_first (filter_by is_successful runs)))
          ≡ length (filter_by p (filter_by is_successful runs)))
      × All
          (λ r. NoNewer r (drop n (newest_first (filter_by is_successful runs))))
          (newest_successful n runs)
unfolding newest_successful
newest_successful-newest n runs = (
  (λ p. count-newest_first p (filter_by is_successful runs)),
  rest-NoNewer n (newest_first (filter_by is_successful runs))
      (newest_first-Descends (filter_by is_successful runs)),
)
