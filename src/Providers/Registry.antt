-- ===== src/Providers/Registry.antt =====
-- pkg/provider/registry.go.
use git_simulator.Base.{
  String, ◌==◌, ◌≡◌, if◌then◌else◌, Option, none, some, List, [], ◌∷◌, string_eq, lookup, insert,
  lookup-insert, arith,
}
use git_simulator.Core.Errors.{Result, ok, err, message}
use git_simulator.Core.Provider.{Provider}

abbrev pub ProviderRegistry : Type 0
ProviderRegistry = List (String × Provider)

-- Register(p)
unfoldable pub register : Provider → ProviderRegistry → ProviderRegistry
register p registry = insert p.name p registry

unfoldable pub registered : String → Option Provider → Result Provider
registered name none = err (message "provider %q not registered" (name ∷ []))
registered name (some p) = ok p

-- Get(name)
unfoldable pub get : String → ProviderRegistry → Result Provider
unfolding registered
get name registry = registered name (lookup name registry)

pub get-register :
    (name : String) (p : Provider) (registry : ProviderRegistry)
    → get name (register p registry) ≡ (if p.name == name then ok p else get name registry)
unfolding get register
get-register name p registry = ground (arith, lookup-insert p.name name p registry)
