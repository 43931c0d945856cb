-- ===== src/Gitsim/Simulator/Webhooks.antt =====
-- What Webhook of pkg/gitsim/gitsim.go changes of the simulator.
use git_simulator.Base.{
  String, ◌==◌, ◌≡◌, refl, Bool-cases, Option, none, some, List, [], ◌∷◌, ltb_ℤ, pos, inl, inr,
}
use git_simulator.Store.Git.{Git}
use git_simulator.Emitter.World.{Delivery, History, World}
use git_simulator.Emitter.Send.{Sent, new_emitter, send_with_retry}
use git_simulator.Emitter.Batch.{Batch, send_batch}
use git_simulator.Gitsim.Options.{WebhookConfig, WebhookOption, apply}
use git_simulator.Gitsim.SimRepo.{SimRepo}
use git_simulator.Gitsim.Simulator.{
  Simulator, Handle, HandleRef, load, no_options, batched, sent_now, deliver_to, webhook_from,
  webhook_with, webhook,
}

module _ (g : Git) (w : World) (s : Simulator g) where
  abbrev OnlyEvents : Simulator g → Type 0
  OnlyEvents t = (h : History) × (t ≡ record s { events = h })

  batched-OnlyEvents : (b : Batch w) → OnlyEvents (batched g w s b).1
  unfolding batched
  batched-OnlyEvents ((results, some e), h) = (h, refl)
  batched-OnlyEvents ((results, none), h) = (h, refl)

  sent-OnlyEvents : (x : Sent × History) → OnlyEvents (sent_now g w s x).1
  unfolding sent_now
  sent-OnlyEvents (sent, h) = (h, refl)

  delivered-OnlyEvents : (target : String) (d : Delivery) → OnlyEvents (deliver_to g w target d s).1
  unfolding deliver_to
  delivered-OnlyEvents target d = elim (Bool-cases (ltb_ℤ (pos 0) d.send_at)) [
    | inl e ↦ rw e (batched-OnlyEvents (send_batch w new_emitter target (d ∷ []) s.events))
    | inr e ↦ rw e (sent-OnlyEvents (send_with_retry w new_emitter target d s.events))
  ]

  from-OnlyEvents :
      (cfg : WebhookConfig) (sha : String) (o : Option (Handle × SimRepo g))
      → OnlyEvents (webhook_from g w cfg sha o s).1
  unfolding webhook_from
  from-OnlyEvents cfg sha none = (s.events, refl)
  from-OnlyEvents cfg sha (some (h, v)) = delivered-OnlyEvents cfg.target _

  with-OnlyEvents :
      (cfg : WebhookConfig) (ref : HandleRef) (sha : String)
      → OnlyEvents (webhook_with g w cfg ref sha s).1
  unfolding webhook_with
  with-OnlyEvents cfg ref sha = elim (Bool-cases (cfg.target == "")) [
    | inl e ↦ rw e (s.events, refl)
    | inr e ↦ rw e (from-OnlyEvents cfg sha (load g ref s))
  ]

  pub webhook-OnlyEvents :
      (ref : HandleRef) (sha : String) (opts : List WebhookOption)
      → (h : History) × ((webhook g w ref sha opts s).1 ≡ record s { events = h })
  unfolding webhook
  webhook-OnlyEvents ref sha opts = with-OnlyEvents (apply opts no_options) ref sha
