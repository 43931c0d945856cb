-- ===== src/Command/Tests.antt =====
-- The command's flags at concrete inputs.
use git_simulator.Base.{ℕ, ℤ, pos, String, ◌≡◌, refl, [], ◌∷◌, All, lookup, insert}
use git_simulator.Core.Errors.{Result, ok, err, library as failure}
use git_simulator.Core.LocalDir.{Node, local_dir}
use git_simulator.Gitsim.Config.{default_config}
use git_simulator.Store.Toy.{toy}
use git_simulator.Gitsim.Simulator.{Simulator}
use git_simulator.Gitsim.Mux.{new_simulator}
use git_simulator.Providers.Toy.{library}
use git_simulator.Providers.Vendors.{github, vendor_provider, register_all}
use git_simulator.Command.{split_trimmed, base_url, trim_space, start}
use git_simulator.Command.Vendors.{of_command, start-of_command}
use git_simulator.Command.Laws.{split_trimmed-joined}

split_trimmed-joined_example :
    split_trimmed "github, gitlab, gogs" ≡ "github" ∷ "gitlab" ∷ "gogs" ∷ []
unfolding trim_space
split_trimmed-joined_example =
    split_trimmed-joined "github" ("gitlab" ∷ "gogs" ∷ []) (refl, refl, refl)
      ((refl, refl, refl), ((refl, refl, refl), tt))

untidy : split_trimmed " github ,, gogs," ≡ "github" ∷ "gogs" ∷ []
unfolding split_trimmed
untidy = refl

default_url : base_url "" "" ≡ "http://localhost:8080"
unfolding base_url
default_url = refl

abbrev parse_host : String → Result String
parse_host url = ok "h"

abbrev real : ℕ → ℤ
real n = pos n

abbrev no_disk : String → Result Node
no_disk path = err (failure "no such file or directory")

abbrev running : Simulator toy
running =
    record (new_simulator toy (default_config real).content (vendor_provider library github ∷ [])) {
      base_url = "http://h";
      host = "h";
    }

started :
    start toy parse_host real (of_command library) no_disk " github," "" "http://h/" ""
    ≡ ok (real, running)
unfolding start register_all lookup insert new_simulator
started = refl

-- A directory that is not there is no reason not to start: it is read with the first commit.
started_without_directory :
    start toy parse_host real (of_command library) no_disk "github" "/data" "http://h/" ""
    ≡ ok (
      real,
      record (new_simulator toy
          (local_dir "/data" "." (no_disk "/data"))
          (vendor_provider library github ∷ [])) { base_url = "http://h"; host = "h" },
    )
unfolding start register_all lookup insert new_simulator
started_without_directory = refl

start-of_command_example : All {A = String} (λ name. name ≡ "github") (split_trimmed " github,")
start-of_command_example =
    start-of_command library toy parse_host real no_disk " github," "" "http://h/" ""
      (real, running) started
