-- ===== src/Tests/Query.antt =====
-- Runs of week 8/queryEngine/queryEngine.c.
use iitm.Prelude.{◌+◌, ◌-◌, ◌≡◌, refl, [], ◌∷◌, length, take, Text, eqb_text}
use iitm.QueryEngine.{
  limit, init_engine, program_table, table_scan_next, filter_next, limit_next, projection_next,
  run_query,
}
use iitm.QueryEngine.Scan.{of_city}
use iitm.QueryEngine.Rows.{run_query_lem}

program : Unit {0}
unfolding eqb_text table_scan_next filter_next limit_next projection_next run_query of_city
program = tt

abbrev rohith : Text
rohith = b'R' ∷ b'o' ∷ b'h' ∷ b'i' ∷ b't' ∷ b'h' ∷ []

first_run : (run_query program_table init_engine).0 ≡ (rohith, 23) ∷ []
unfolding program
first_run = refl

second_run : (run_query program_table (run_query program_table init_engine).1).0 ≡ []
unfolding program
second_run = refl

run_query_lem_example :
    ((run_query program_table init_engine).0 ≡ take (limit - 0) (of_city program_table))
    × ((run_query program_table init_engine).1.current_limit
        ≡ 0 + length (run_query program_table init_engine).0)
    × ((run_query program_table (run_query program_table init_engine).1).0
        ≡ take
            (limit - (0 + length (run_query program_table init_engine).0))
            (of_city program_table))
run_query_lem_example = run_query_lem program_table refl init_engine
