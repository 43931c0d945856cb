-- ===== src/Gitsim/Config.antt =====
-- New of pkg/gitsim/gitsim.go and the options of pkg/gitsim/options.go that it takes.
use git_simulator.Base.{ℕ, ℤ, String, List, [], ◌∷◌, ◌++◌, codes}
use git_simulator.Core.Errors.{panicked, wrapped, Result, ok, err}
use git_simulator.Core.Content.{ContentProvider, static_content}
use git_simulator.Core.Provider.{Provider}
use git_simulator.Store.Git.{Git}
use git_simulator.Providers.Registry.{ProviderRegistry, get}
use git_simulator.Gitsim.Simulator.{Simulator}
use git_simulator.Gitsim.Mux.{new_simulator}

-- A clock is its readings, in order.
pub record SimConfig : Type 0 where
  pub clock : ℕ → ℤ
  pub content : ContentProvider
  pub providers : List Provider

-- An option may panic.
abbrev pub SimOption : Type 0
SimOption = SimConfig → Result SimConfig

-- WithClock(c)
abbrev pub with_clock : (ℕ → ℤ) → SimOption
with_clock c cfg = ok (record cfg { clock = c })

-- WithContent(cp)
abbrev pub with_content : ContentProvider → SimOption
with_content cp cfg = ok (record cfg { content = cp })

abbrev pub enabled : List Provider → Result Provider → Result (List Provider)
enabled providers (err e) =
    err (panicked (wrapped "gitsim: %v (import the provider package to register it)" [] e))
enabled providers (ok p) = ok (providers ++ p ∷ [])

-- The loop of WithProviders over cfg.providers, or the panic for a name that is not registered.
unfoldable pub enable_all :
    List String → ProviderRegistry → Result (List Provider) → Result (List Provider)
unfolding get
enable_all [] registry providers = providers
enable_all (name ∷ names) registry (err e) = err e
enable_all (name ∷ names) registry (ok ps) =
    enable_all names registry (enabled ps (get name registry))

abbrev pub store_providers : SimConfig → Result (List Provider) → Result SimConfig
store_providers cfg (err e) = err e
store_providers cfg (ok ps) = ok (record cfg { providers = ps })

-- WithProviders(names...)
unfoldable pub with_providers : ProviderRegistry → List String → SimOption
unfolding enable_all
with_providers registry names cfg =
    store_providers cfg (enable_all names registry (ok cfg.providers))

-- The defaults of New; `real` is the clock of package time.
unfoldable pub default_config : (ℕ → ℤ) → SimConfig
unfolding static_content
default_config real = record {
  clock = real;
  content = static_content (("README.md", codes "# gitsim") ∷ []);
  providers = [];
}

-- for _, o := range opts { o(&cfg) }
unfoldable pub configure : List SimOption → Result SimConfig → Result SimConfig
configure [] r = r
configure (o ∷ opts) (err e) = err e
configure (o ∷ opts) (ok cfg) = configure opts (o cfg)

module _ (g : Git) where
  unfoldable pub new_from : Result SimConfig → Result ((ℕ → ℤ) × Simulator g)
  unfolding new_simulator
  new_from (err e) = err e
  new_from (ok cfg) = ok (cfg.clock, new_simulator g cfg.content cfg.providers)

  -- New(opts...): the simulator, with the clock that it is given
  unfoldable pub new : (ℕ → ℤ) → List SimOption → Result ((ℕ → ℤ) × Simulator g)
  unfolding new_from configure default_config
  new real opts = new_from (configure opts (ok (default_config real)))
