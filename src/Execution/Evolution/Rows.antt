-- ===== src/Execution/Evolution/Rows.antt =====
-- What a session may do to the executions table: statements that take a row along one edge of its
-- lifecycle at most, so that every row that was there is still there, and has moved along it.
use agency_os.Prelude.{ℕ, ◌≡◌, refl, sym, ◌∙◌, ap, ◌++◌, some, List, [], ◌∷◌}
use agency_os.Db.Tables.{Execution}
use agency_os.Execution.Lifecycle.{Reaches, here, Reaches-trans, one_step}
use agency_os.Execution.Statements.{Statement, run, execute, Advances, kept, moved, Stepwise, Runs}
use agency_os.Execution.Evolution.Steps.{run-RowsAdvance}
use agency_os.Execution.Guarantee.{Contract}
use agency_os.Execution.Repository.{find_row}

-- the row of a key in `ys` comes from its row in `xs`
pub record RowsEvolve (xs ys : List Execution) : Type 0 where
  pub row :
      (o i : ℕ) (e : Execution)
      → find_row o i xs ≡ some e
      → (e' : Execution) × (find_row o i ys ≡ some e') × Reaches e e'

pub RowsEvolve-refl : (xs : List Execution) → RowsEvolve xs xs
RowsEvolve-refl xs = record { row = λ o i e h. (e, h, here) }

pub RowsEvolve-trans :
    (xs ys zs : List Execution) → RowsEvolve xs ys → RowsEvolve ys zs → RowsEvolve xs zs
RowsEvolve-trans xs ys zs f g = record {
  row = λ o i e h.
      let (e', h', r) = f.row o i e h in
      let (e'', h'', r') = g.row o i e' h' in (e'', h'', Reaches-trans r r');
}

advanced : {a b : Execution} → Advances a b → Reaches a b
advanced kept = here
advanced (moved s) = one_step s

execute-RowsEvolve :
    (ss : List Statement) (xs : List Execution) → Stepwise ss xs → RowsEvolve xs (execute ss xs)
unfolding execute
execute-RowsEvolve [] xs _ = RowsEvolve-refl xs
execute-RowsEvolve (s ∷ ss) xs (first, rest) =
    RowsEvolve-trans xs (run s xs) (execute ss (run s xs))
      (record { row = λ o i e h. let (e', h', a) = first.row o i e h in (e', h', advanced a) })
      (execute-RowsEvolve ss (run s xs) rest)

-- what single statements do, added up
pub Runs-RowsEvolve : (xs ys : List Execution) → Runs xs ys → RowsEvolve xs ys
Runs-RowsEvolve xs ys r = rw r.result (execute-RowsEvolve r.statements xs r.stepwise)

execute-++ :
    (ss ts : List Statement) (xs : List Execution)
    → execute (ss ++ ts) xs ≡ execute ts (execute ss xs)
unfolding execute
execute-++ [] ts xs = refl
execute-++ (s ∷ ss) ts xs = execute-++ ss ts (run s xs)

execute-Stepwise : (ss : List Statement) (xs : List Execution) → Stepwise ss xs
execute-Stepwise [] xs = tt
execute-Stepwise (s ∷ ss) xs = (run-RowsAdvance s xs, execute-Stepwise ss (run s xs))

pub Runs-refl : (xs : List Execution) → Runs xs xs
unfolding execute
Runs-refl xs = record { statements = []; result = refl; stepwise = tt }

pub Runs-trans : (xs ys zs : List Execution) → Runs xs ys → Runs ys zs → Runs xs zs
Runs-trans xs ys zs f g = record {
  statements = f.statements ++ g.statements;
  result =
      g.result ∙ ap (execute g.statements) f.result ∙ sym (execute-++ f.statements g.statements xs);
  stepwise = execute-Stepwise (f.statements ++ g.statements) xs;
}

pub Runs-one : (s : Statement) (xs : List Execution) → Runs xs (run s xs)
unfolding execute
Runs-one s xs = record { statements = s ∷ []; result = refl; stepwise = (run-RowsAdvance s xs, tt) }

-- The table only changes by the statements of the repository, each of one edge at most.
abbrev pub stepwise : Contract
stepwise = record { Rel = Runs; rel_refl = Runs-refl; rel_trans = Runs-trans }
