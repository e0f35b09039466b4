-- ===== src/Cmd/Main.antt =====
-- cmd/users-api/main.go: what `main` does with the command line.
use users_api.Base.{String, ◌<>◌, ◌||◌, List, [], ◌∷◌, ◌==◌, string_eq, if◌then◌else◌}
use users_api.Go.Result.{Result, ok, panic}

-- The migrations with a command, or the servers.
pub data Action : Type 0 where
  migrate : String → Action
  start_web_api : Action

-- `command + " " + os.Args[3]`: the index may be out of range.
abbrev pub with_version : String → List String → Result Action
with_version command [] = panic "index out of range"
with_version command (version ∷ _) = ok (migrate (command <> (" " <> version)))

-- The arguments behind "migrate".
unfoldable pub migrate_action : List String → Result Action
migrate_action [] = ok (migrate "up")
migrate_action (command ∷ rest) =
    if command == "down-to" || command == "up-to"
    then with_version command rest
    else ok (migrate command)

-- The switch of `main`, on the arguments behind the program's name.
unfoldable pub main_action : List String → Result Action
unfolding migrate_action
main_action [] = ok start_web_api
main_action (arg ∷ rest) = if arg == "migrate" then migrate_action rest else ok start_web_api
