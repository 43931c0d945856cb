-- ===== src/Emitter/Batch.antt =====
-- sendBatch of pkg/emitter/schedule.go.
use git_simulator.Base.{
  ℕ, suc, String, Bool, true, false, if◌then◌else◌, ltb_ℤ, Option, none, some, List, [], ◌∷◌, ℤ,
  pos, ◌-ℤ◌, sort_stable, length, replicate, set,
}
use git_simulator.Core.Errors.{Error}
use git_simulator.Emitter.World.{Delivery, Outcome, waited, cancelled, History, World}
use git_simulator.Emitter.Send.{Emitter, send_with_retry, zero_outcome}

pub record Entry : Type 0 where
  pub orig_idx : ℕ
  pub delivery : Delivery

-- ordered[i] = entry{i, d}, from an index on
unfoldable pub entries_from : ℕ → List Delivery → List Entry
entries_from i [] = []
entries_from i (d ∷ ds) = record { orig_idx = i; delivery = d } ∷ entries_from (suc i) ds

abbrev pub send_time : Entry → ℤ
send_time x = x.delivery.send_at

-- sort.SliceStable by SendAt
unfoldable pub in_order : List Delivery → List Entry
unfolding entries_from sort_stable
in_order ds = sort_stable send_time (entries_from 0 ds)

module _ (w : World) where
  -- The wait before a delivery that is due at `send_at` after `start`; false if the context ends it.
  unfoldable pub hold : ℤ → ℤ → History → Bool × History
  hold start send_at h =
      let remaining = send_at -ℤ (w.now h -ℤ start) in
      let wait =
        if w.waits h remaining then (true, waited remaining ∷ h) else (false, cancelled ∷ h) in
      if ltb_ℤ (pos 0) send_at
      then if ltb_ℤ (pos 0) remaining then wait else (true, h)
      else (true, h)

  abbrev pub Batch : Type 0
  Batch = (List Outcome × Option Error) × History

  -- The loop over the ordered entries.
  unfoldable pub deliver : Emitter → String → ℤ → List Entry → List Outcome → History → Batch
  unfolding hold
  deliver e target start [] results h = ((results, none), h)
  deliver e target start (x ∷ xs) results h =
      let (go, held) = hold start x.delivery.send_at h in
      let cut : Batch = ((results, some (w.context_error h)), held) in
      let (sent, h') = send_with_retry w e target x.delivery held in
      let rest = deliver e target start xs (set results x.orig_idx sent.0) h' in
      if go then rest else cut

  -- sendBatch(ctx, e, target, ds)
  unfoldable pub send_batch : Emitter → String → List Delivery → History → Batch
  unfolding deliver in_order
  send_batch e target ds h =
      deliver e target (w.now h) (in_order ds) (replicate (length ds) zero_outcome) h
