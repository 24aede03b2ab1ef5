-- ===== src/Examples/Exits.antt =====
-- main without a database in its configuration, and a database that cannot be reached.
use npu_oj.Base.{ℕ, ◌≡◌, ◌<◌, refl, Bool, true, false, none, some, List, [], ◌∷◌}
use npu_oj.Base.Int.{pos}
use npu_oj.Base.Effect.{exits, faults}
use npu_oj.Config.{Pcre, load_file, regex_get_value, store_value, get_string, key_pattern}
use npu_oj.Daemon.{daemon_run, check_daemon_running, after_lock_file}
use npu_oj.Log.{log_init}
use npu_oj.Slots.{find_slot}
use npu_oj.Db.{Db, init_db, free_connection}
use npu_oj.Db.Connect.{PoolCall, gets, releases, serve, lend_opening, connect_db}
use npu_oj.Db.Connect.Once.{noting, AllDistinct, AllNumbers, connects_once}
use npu_oj.System.StartUp.{start_up}
use npu_oj.System.StartUp.Exit.{Globals, at_start, at_exit, Ending, exited, main}
use npu_oj.System.StartUp.Exit.Handler.{ExitOf, exit_lem}
use npu_oj.Examples.World.{quiet, fresh}
use npu_oj.Examples.Startup.{calm, as_root, alone}

-- A configuration without any key.
abbrev no_keys : Pcre
no_keys = record { compiles = λ pattern. true; group = λ pattern subject. none }

abbrev globals_of : {W A : Type 0} → Ending W A → Globals
globals_of (exited code g) = g
globals_of _ = at_start

abbrev left : Globals
left = globals_of (main quiet calm as_root alone no_keys 0 true tt at_start)

without_keys : start_up quiet calm as_root alone no_keys 0 true tt ≡ exits (pos 1)
unfolding start_up daemon_run check_daemon_running after_lock_file log_init load_file init_db
    get_string regex_get_value store_value key_pattern
without_keys = refl

exit_lem_example :
    (g : Globals) × (main quiet calm as_root alone no_keys 0 true tt at_start ≡ exited (pos 1) g)
    × ExitOf quiet calm as_root alone no_keys 0 true tt (pos 1) g
exit_lem_example = exit_lem quiet calm as_root alone no_keys 0 true tt (pos 1) without_keys

-- It is the case of undefined behaviour.
no_keys_faults : at_exit left ≡ faults
unfolding at_exit main daemon_run check_daemon_running after_lock_file log_init load_file init_db
    get_string regex_get_value store_value key_pattern
no_keys_faults = refl

-- Two threads get a connection, and a third one after the first gave its own back.
abbrev three_calls : List PoolCall
three_calls = gets ∷ gets ∷ releases (some 0) ∷ gets ∷ []

abbrev unreachable : ℕ → List ℕ → Bool
unreachable con asked = false

abbrev pool : Db
pool = record fresh.db { max_available = 3 }

connects_once_example :
    AllDistinct (serve (noting unreachable) three_calls pool []).1
    × AllNumbers (λ i. i < 3) (serve (noting unreachable) three_calls pool []).1
connects_once_example = connects_once unreachable three_calls pool

asked_for : (serve (noting unreachable) three_calls pool []).1 ≡ 1 ∷ 0 ∷ []
unfolding serve lend_opening connect_db find_slot free_connection
asked_for = refl
