-- ===== src/Tests/TcpRuns.antt =====
-- A run of the trace contexts of pkg/trace/tcp_context.go, whose contexts are numbers.
use compkg.Common.{ℕ, ◌≡◌, refl, Bool, not, ◌==◌, List, [], ◌∷◌, arith}
use compkg.Common.Int.{pos}
use compkg.Common.Dict.{store, delete}
use compkg.TcpContext.{
  TcpContextMap, missed, loaded, new_tcp_context_map, save, answer_of, load, sweep, Call, saves,
  loads, sweeps, run,
}
use compkg.TcpContext.Sweeps.{without_sweeps, run-without_sweeps}

abbrev not_zero : ℕ → Bool
not_zero n = not (n == 0)

-- Of two contexts the first has expired when it is swept and loaded, the second is loaded twice.
abbrev two_contexts : List (Call ℕ not_zero)
two_contexts =
    saves 0 7 "a" (pos 10) "d" "i"
    ∷ saves 5 8 "b" (pos 0) "d" "i"
    ∷ sweeps 20
    ∷ loads 21 "a"
    ∷ loads 22 "b"
    ∷ loads 23 "b"
    ∷ []

abbrev new_map : TcpContextMap ℕ not_zero
new_map = new_tcp_context_map ℕ not_zero (pos 100)

two_answers : run ℕ not_zero two_contexts new_map ≡ missed ∷ loaded 8 "d" "i" ∷ missed ∷ []
unfolding run save load sweep answer_of new_tcp_context_map store delete
two_answers = refl

run-without_sweeps_example :
    run ℕ not_zero two_contexts new_map
    ≡ run ℕ not_zero (without_sweeps ℕ not_zero two_contexts) new_map
run-without_sweeps_example =
    run-without_sweeps ℕ not_zero 0 two_contexts new_map
      (omega arith, (omega arith, (omega arith, (omega arith, (omega arith, (omega arith, tt))))))
