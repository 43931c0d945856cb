-- ===== src/Command/Vendors.antt =====
-- The flag -vendors of cmd/gitsim/main.go and the registry of the command.
use git_simulator.Base.{
  String, ◌==◌, ◌≡◌, refl, sym, ◌∙◌, Bool-cases, List, [], ◌∷◌, All, eq_iff, inl, inr, lookup,
  string_eq, ℕ, ℤ,
}
use git_simulator.Core.Errors.{Result, ok, err, Result-cases}
use git_simulator.Core.LocalDir.{Node, local_dir}
use git_simulator.Core.Provider.{Provider}
use git_simulator.Store.Git.{Git}
use git_simulator.Gitsim.Simulator.{Simulator}
use git_simulator.Providers.Library.{Library}
use git_simulator.Providers.Registry.{ProviderRegistry, get, get-register}
use git_simulator.Providers.Vendors.{github, register_all, vendor_provider}
use git_simulator.Gitsim.Config.{
  SimConfig, SimOption, enable_all, store_providers, with_content, with_providers, configure,
  new_from, new, default_config,
}
use git_simulator.Command.{split_trimmed, options_of, based, base_url, start}

enable_all-ok :
    (names : List String) (registry : ProviderRegistry) (ps : List Provider)
    (r : Result (List Provider))
    → enable_all names registry r ≡ ok ps
    → (qs : List Provider) × (r ≡ ok qs)
unfolding enable_all
enable_all-ok [] registry ps r h = (ps, h)
enable_all-ok (n ∷ names) registry ps (err e) h = cc
enable_all-ok (n ∷ names) registry ps (ok qs) h = (qs, refl)

module _ (lib : Library) where
  -- The registry of the command, which imports the package of GitHub alone.
  abbrev pub of_command : ProviderRegistry
  of_command = register_all lib (github ∷ []) []

  get-of_command : (name : String) (p : Provider) → get name of_command ≡ ok p → name ≡ "github"
  unfolding register_all get lookup
  get-of_command name p h = elim (Bool-cases ("github" == name)) [
    | inl e ↦ sym ((eq_iff "github" name).0 e)
    | inr e ↦
        let h' = sym (get-register name (vendor_provider lib github) []) ∙ h in
        let h'' = rw e at h' in cc
  ]

  enable_all-of_command :
      (names : List String) (before ps : List Provider)
      → enable_all names of_command (ok before) ≡ ok ps
      → All {A = String} (λ name. name ≡ "github") names
  unfolding enable_all
  enable_all-of_command [] before ps h = tt
  enable_all-of_command (n ∷ names) before ps h = elim (Result-cases (get n of_command)) [
    | inl (p, q) ↦ (get-of_command n p q, enable_all-of_command names _ ps (rw q at h))
    | inr (e, q) ↦
        let h' = rw q at h in let (qs, same) = enable_all-ok names of_command ps _ h' in cc
  ]

  store_providers-ok :
      (cfg cfg' : SimConfig) (r : Result (List Provider))
      → store_providers cfg r ≡ ok cfg'
      → (ps : List Provider) × (r ≡ ok ps)
  store_providers-ok cfg cfg' (ok ps) h = (ps, refl)
  store_providers-ok cfg cfg' (err e) h = absurd (cc)

  configure-ok :
      (opts : List SimOption) (r : Result SimConfig) (cfg : SimConfig)
      → configure opts r ≡ ok cfg
      → (c : SimConfig) × (r ≡ ok c)
  unfolding configure
  configure-ok [] r cfg h = (cfg, h)
  configure-ok (o ∷ opts) (err e) cfg h = absurd (cc)
  configure-ok (o ∷ opts) (ok c) cfg h = (c, refl)

  new_from-ok :
      (g : Git) (r : Result SimConfig) (x : (ℕ → ℤ) × Simulator g)
      → new_from g r ≡ ok x
      → (c : SimConfig) × (r ≡ ok c)
  unfolding new_from
  new_from-ok g (ok c) x h = (c, refl)
  new_from-ok g (err e) x h = absurd (cc)

  based-ok :
      (g : Git) (parse_host : String → Result String) (url : String)
      (r : Result ((ℕ → ℤ) × Simulator g)) (x : (ℕ → ℤ) × Simulator g)
      → based g parse_host url r ≡ ok x
      → (y : (ℕ → ℤ) × Simulator g) × (r ≡ ok y)
  unfolding based
  based-ok g parse_host url (ok y) x h = (y, refl)
  based-ok g parse_host url (err e) x h = absurd (cc)

  -- WithProviders comes first, so New succeeds only if every name is registered.
  new-of_command :
      (g : Git) (real : ℕ → ℤ) (names : List String) (more : List SimOption)
      (x : (ℕ → ℤ) × Simulator g)
      → new g real (with_providers of_command names ∷ more) ≡ ok x
      → All {A = String} (λ name. name ≡ "github") names
  unfolding new configure with_providers
  new-of_command g real names more x h =
      let start = default_config real in
      let enabled = enable_all names of_command (ok start.providers) in
      let (_, made) = new_from-ok g (configure more (store_providers start enabled)) x h in
      let (cfg, stored) = configure-ok more (store_providers start enabled) _ made in
      let (ps, q) = store_providers-ok start cfg enabled stored in
      enable_all-of_command names start.providers ps q

  -- When the command comes as far as the HTTP server, every name of -vendors is github: any other
  -- name ends it by a panic.
  pub start-of_command :
      (g : Git) (parse_host : String → Result String) (real : ℕ → ℤ) (disk : String → Result Node)
      (vendors content_dir git_base_url port : String) (x : (ℕ → ℤ) × Simulator g)
      → start g parse_host real of_command disk vendors content_dir git_base_url port ≡ ok x
      → All {A = String} (λ name. name ≡ "github") (split_trimmed vendors)
  unfolding start options_of
  start-of_command g parse_host real disk vendors content_dir git_base_url port x h =
      let (y, made) =
        based-ok g parse_host (base_url git_base_url port)
          (new g real (options_of of_command disk vendors content_dir)) x h in
      elim (Bool-cases (content_dir == "")) [
        | inl e ↦ new-of_command g real (split_trimmed vendors) [] y (rw e at made)
        | inr e ↦
            new-of_command g real (split_trimmed vendors)
              (with_content (local_dir content_dir "." (disk content_dir)) ∷ []) y (rw e at made)
      ]
