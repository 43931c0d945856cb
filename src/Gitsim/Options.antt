-- ===== src/Gitsim/Options.antt =====
-- pkg/gitsim/options.go: the options of Push and Webhook.
use git_simulator.Base.{String, List, [], ◌∷◌, ℤ}

pub record PushConfig : Type 0 where
  pub branch : String
  pub delay : ℤ

abbrev pub PushOption : Type 0
PushOption = PushConfig → PushConfig

-- OnBranch(name)
abbrev pub on_branch : String → PushOption
on_branch name cfg = record cfg { branch = name }

-- HeadDelay(d)
abbrev pub head_delay : ℤ → PushOption
head_delay d cfg = record cfg { delay = d }

pub record WebhookConfig : Type 0 where
  pub target : String
  pub send_after : ℤ
  pub secret : String
  pub branch : String

abbrev pub WebhookOption : Type 0
WebhookOption = WebhookConfig → WebhookConfig

-- Target(url)
abbrev pub target : String → WebhookOption
target url cfg = record cfg { target = url }

-- SendAfter(d)
abbrev pub send_after : ℤ → WebhookOption
send_after d cfg = record cfg { send_after = d }

-- Secret(s)
abbrev pub secret : String → WebhookOption
secret s cfg = record cfg { secret = s }

-- WithBranch(name)
abbrev pub with_branch : String → WebhookOption
with_branch name cfg = record cfg { branch = name }

-- for _, o := range opts { o(cfg) }
abbrev pub apply {ℓ} : {C : Type ℓ} → List (C → C) → C → C
apply [] cfg = cfg
apply (o ∷ os) cfg = apply os (o cfg)
