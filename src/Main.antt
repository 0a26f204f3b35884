-- ===== src/Main.antt =====
-- main.cpp: the start of the program, by the configuration. node::start and server::start stand in Node and
-- in Server/Start; here it is what they are started with.
pub mod Restart
pub mod Tests
use epic_poold.Base.{Bool, true, false, not, ℕ, List, [], ◌∷◌, codes, same_text, if◌then◌else◌}
use epic_poold.Rpc.{Try, ok, fault, thrown, JsonValues}
use epic_poold.Jconf.Table.{Kind}
use epic_poold.Jconf.{Config, Disk, read_file, parse_config}

-- The process has returned from main, or has started the node and the server.
pub data Process (V : Type 0) : Type 0 where
  exited : ℕ → Process V
  serving : Config V → Process V

abbrev pub conf_filename : List (List ℕ) → List ℕ
conf_filename (name ∷ conf ∷ argv) = conf
conf_filename _ = codes "config.json"

abbrev pub stored : (List ℕ → Disk) → List ℕ → Disk → List ℕ → Disk
stored files name file other = if same_text name other then file else files other

module _ {V : Type 0} (json : JsonValues V) (get_type : V → Kind) where
  abbrev pub started : Try (Bool × Config V) → Try (Process V)
  started (ok (accepted, config)) = ok (if not accepted then exited 1 else serving config)
  started thrown = thrown
  started fault = fault

  -- What main does, with the files that it leaves.
  unfoldable pub main :
      Bool → List (List ℕ) → (List ℕ → Disk) → Config V → Try (Process V) × (List ℕ → Disk)
  unfolding parse_config read_file
  main rd_error argv files config =
      let name = conf_filename argv in
      (
        started (parse_config json get_type rd_error (files name) config),
        stored files name (read_file (files name) rd_error).1,
      )
